-- ===== src/Http/Chunks.antt =====
-- What `parse_http_response` of src/posix.cpp makes of a chunked body.
use aas_sign.Base.{
  ℕ, zero, suc, ◌+◌, ◌%◌, ◌^◌, ◌<◌, ◌≤◌, ltb, ◌==◌, ◌≡◌, ◌≢◌, refl, sym, ap, ◌∙◌, true, false,
  arith, List, [], ◌∷◌, ◌++◌, All, append-nil, append_assoc, length, length-append, length-drop,
  take, drop, take-append, drop-append, some, ok, Text, codes,
}
use aas_sign.Web.RoundTrip.{Free}
use aas_sign.Process.{starts_with}
use aas_sign.Http.{find_text, crlf, stoul_16, decode_chunks}

drop-nil : (k : ℕ) → drop {A = ℕ} k [] ≡ []
drop-nil zero = refl
drop-nil (suc k) = refl

drop-drop : (m n : ℕ) (xs : Text) → drop (m + n) xs ≡ drop n (drop m xs)
drop-drop zero n xs = let e : 0 + n ≡ n = omega arith in ap (λ k. drop k xs) e
drop-drop (suc m) n [] = drop-nil (suc m + n) ∙ sym (drop-nil n)
drop-drop (suc m) n (x ∷ xs) =
    let e : suc m + n ≡ suc (m + n) = omega arith in ap (λ k. drop k (x ∷ xs)) e ∙ drop-drop m n xs

-- A chunk: the text of its size, and its data.
abbrev pub encode_chunks : List (Text × Text) → Text
encode_chunks [] = codes "0" ++ (crlf ++ crlf)
encode_chunks ((size, data_bytes) ∷ chunks) =
    size ++ (crlf ++ (data_bytes ++ (crlf ++ encode_chunks chunks)))

abbrev pub chunk_data : List (Text × Text) → Text
chunk_data [] = []
chunk_data ((size, data_bytes) ∷ chunks) = data_bytes ++ chunk_data chunks

-- The size is on a line of its own and reads as the length of the data, which is not empty.
pub record IsChunk (chunk : Text × Text) : Type 0 where
  pub line : Free 13 chunk.0
  pub size : stoul_16 chunk.0 ≡ ok (length chunk.1)
  pub filled : 0 < length chunk.1

other : (c d : ℕ) → c ≢ d → (c == d) ≡ false
other c d h = ground arith

find_text-line :
    (size rest : Text) → Free 13 size → find_text crlf (size ++ (crlf ++ rest)) ≡ some (length size)
unfolding find_text starts_with
find_text-line [] rest h = refl
find_text-line (c ∷ size) rest (h, hs) = rw (other c 13 h, find_text-line size rest hs) refl

-- What stands at the position of a chunk.
record IsAt (src : Text) (at : ℕ) (size data_bytes rest : Text) : Type 0 where
  found : find_text crlf (drop at src) ≡ some (length size)
  size_text : take (length size) (drop at src) ≡ size
  bytes : take (length data_bytes) (drop (at + length size + 2) src) ≡ data_bytes
  others : drop (at + length size + 2 + (length data_bytes + 2)) src ≡ rest
  long : length src ≡ at + length size + 2 + (length data_bytes + 2) + length rest

-- Cutting a chunk into its parts.
cut-IsAt :
    (src : Text) (at : ℕ) (size data_bytes rest : Text)
    → Free 13 size
    → at ≤ length src
    → drop at src ≡ size ++ (crlf ++ (data_bytes ++ (crlf ++ rest)))
    → IsAt src at size data_bytes rest
cut-IsAt src at size data_bytes rest free l h =
    let tail = data_bytes ++ (crlf ++ rest) in
    let behind_size : drop (at + length size) src ≡ crlf ++ tail =
      drop-drop at (length size) src
      ∙ ap (drop (length size)) h
      ∙ drop-append size (crlf ++ tail) in
    let at_data : drop (at + length size + 2) src ≡ tail =
      drop-drop (at + length size) 2 src ∙ ap (drop 2) behind_size in
    let behind_data : drop (at + length size + 2 + length data_bytes) src ≡ crlf ++ rest =
      drop-drop (at + length size + 2) (length data_bytes) src
      ∙ ap (drop (length data_bytes)) at_data
      ∙ drop-append data_bytes (crlf ++ rest) in
    let sum : at + length size + 2 + (length data_bytes + 2)
        ≡ at + length size + 2 + length data_bytes + 2 =
      omega arith in
    record {
      found = ap (find_text crlf) h ∙ find_text-line size tail free;
      size_text = ap (take (length size)) h ∙ take-append size (crlf ++ tail);
      bytes = ap (take (length data_bytes)) at_data ∙ take-append data_bytes (crlf ++ rest);
      others =
          ap (λ n. drop n src) sum
          ∙ drop-drop (at + length size + 2 + length data_bytes) 2 src
          ∙ ap (drop 2) behind_data;
      long = omega (
        arith,
        length-drop at src,
        ap length h,
        length-append size (crlf ++ tail),
        length-append crlf tail,
        length-append data_bytes (crlf ++ rest),
        length-append crlf rest,
      );
    }

filled-not : (n : ℕ) → 0 < n → (n == 0) ≡ false
filled-not n h = ground arith

is_inside : (at total : ℕ) → at < total → ltb at total ≡ true
is_inside at total h = ground arith

no_wrap : (n limit : ℕ) → n ≤ limit → limit < 2 ^ 64 → n % 2 ^ 64 ≡ n
no_wrap n limit h k = omega arith

last_line : find_text crlf (encode_chunks []) ≡ some 1
unfolding find_text starts_with
last_line = refl

last_size : stoul_16 (take 1 (encode_chunks [])) ≡ ok 0
unfolding stoul_16
last_size = refl

length-encode :
    (size data_bytes : Text) (chunks : List (Text × Text))
    → length (encode_chunks ((size, data_bytes) ∷ chunks))
      ≡ length size + 2 + (length data_bytes + 2) + length (encode_chunks chunks)
length-encode size data_bytes chunks =
    let rest = encode_chunks chunks in
    omega (
      arith,
      length-append size (crlf ++ (data_bytes ++ (crlf ++ rest))),
      length-append crlf (data_bytes ++ (crlf ++ rest)),
      length-append data_bytes (crlf ++ rest),
      length-append crlf rest,
    )

decode_chunks-at :
    (chunks : List (Text × Text)) (fuel : ℕ) (src : Text) (at : ℕ) (decoded : Text)
    → All IsChunk chunks
    → length src < 2 ^ 64
    → at ≤ length src
    → drop at src ≡ encode_chunks chunks
    → length (encode_chunks chunks) < fuel
    → decode_chunks fuel src at decoded ≡ ok (decoded ++ chunk_data chunks)
unfolding decode_chunks
decode_chunks-at chunks zero src at decoded cs b l h f = absurd (omega arith)
decode_chunks-at [] (suc fuel) src at decoded cs b l h f =
    let inside = is_inside at (length src) (omega (arith, length-drop at src, ap length h)) in
    let found : find_text crlf (drop at src) ≡ some 1 = ap (find_text crlf) h ∙ last_line in
    let read : stoul_16 (take 1 (drop at src)) ≡ ok 0 =
      ap (λ t. stoul_16 (take 1 t)) h ∙ last_size in
    rw (inside, found, read) (ap ok (sym (append-nil decoded)))
decode_chunks-at ((size, data_bytes) ∷ chunks) (suc fuel) src at decoded (c, cs) b l h f =
    let rest = encode_chunks chunks in
    let cut = cut-IsAt src at size data_bytes rest c.line l h in
    let long = cut.long in
    let inside = is_inside at (length src) (omega (arith, long)) in
    let read : stoul_16 (take (length size) (drop at src)) ≡ ok (length data_bytes) =
      ap stoul_16 cut.size_text ∙ c.size in
    let there = at + length size + 2 + (length data_bytes + 2) in
    let same = no_wrap there (length src) (omega (arith, long)) b in
    rw (inside, cut.found, read, filled-not _ c.filled, cut.bytes, same)
      (decode_chunks-at chunks fuel src there (decoded ++ data_bytes) cs b (omega (arith, long))
          cut.others (omega (arith, f, length-encode size data_bytes chunks))
        ∙ ap ok (append_assoc decoded data_bytes (chunk_data chunks)))

-- A chunked body, of chunks whose sizes read as the lengths of their data and with a chunk of size zero
-- behind them, is decoded into the data of the chunks in their order, within the rounds that the
-- length of the body allows, when the body fits a machine word.
pub decode_chunks-encode_chunks :
    (chunks : List (Text × Text))
    → All IsChunk chunks
    → length (encode_chunks chunks) < 2 ^ 64
    → decode_chunks (length (encode_chunks chunks) + 1) (encode_chunks chunks) 0 []
      ≡ ok (chunk_data chunks)
decode_chunks-encode_chunks chunks cs b =
    decode_chunks-at chunks _ (encode_chunks chunks) 0 [] cs b (omega arith) refl (omega arith)

-- A line inside the text, read as the size of a chunk, at which the position wraps around.
abbrev pub Wraps : Text → Type 0
Wraps src =
    (at : ℕ) × (k : ℕ) × (n : ℕ) × (at < length src)
    × (find_text crlf (drop at src) ≡ some k)
    × (stoul_16 (take k (drop at src)) ≡ ok n)
    × (2 ^ 64 ≤ at + k + 2 + (n + 2))
