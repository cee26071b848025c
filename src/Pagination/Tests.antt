-- ===== src/Pagination/Tests.antt =====
-- Three rows in pages of two, and the theorem at them.
mod Strokes
use Prim.Native.String.{String, len, ◌++◌ as append}
use ark_esp_backend.Prelude.{ℕ, ◌≡◌, ap, refl, false, some, List, [], ◌∷◌, arith, str_eq, none, ok}
use ark_esp_backend.Prelude.Table.{order_by}
use ark_esp_backend.Pagination.{
  Codec, encode_cursor, decode_cursor, list_page, cut, list_rows, follows,
}
use ark_esp_backend.Pagination.Bar.{split_bar}
use ark_esp_backend.Pagination.Walk.{IsCodec, walk, pages_list_every_row}
use ark_esp_backend.Pagination.Tests.Strokes.{
  strokes, len-strokes, split_bar-strokes, strokes_filled,
}

abbrev codec : Codec
codec = record {
  b64encode = λ s. s;
  b64decode = λ s. some s;
  isoformat = strokes;
  fromisoformat = λ s. some (len s);
  show = strokes;
  uuid = λ s. some (len s);
}

codec-IsCodec : IsCodec codec
codec-IsCodec = record {
  decodes = λ s. refl;
  filled = strokes_filled;
  splits = split_bar-strokes;
  reads_time = λ t. ap some (len-strokes t);
  reads_id = λ i. ap some (len-strokes i);
}

-- Two rows have the same time.
abbrev rows : List (ℕ × ℕ)
rows = (5, 1) ∷ (7, 2) ∷ (5, 3) ∷ []

abbrev place : ℕ × ℕ → ℕ × ℕ
place r = r

rows_in_order : order_by (follows place) rows ≡ (7, 2) ∷ (5, 3) ∷ (5, 1) ∷ []
rows_in_order = refl

first_page :
    list_rows place codec none 2 rows ≡ ok ((7, 2) ∷ (5, 3) ∷ [], some (encode_cursor codec 5 3))
unfolding list_rows list_page cut
first_page = refl

pages_list_every_row_example : walk place codec 2 rows 4 none ≡ order_by (follows place) rows
pages_list_every_row_example =
    pages_list_every_row place codec 2 rows codec-IsCodec
      (
        (λ e. omega (arith, e), (λ e. omega (arith, e), tt)),
        ((λ e. omega (arith, e), tt), (tt, tt)),
      )
      4 (omega arith)
