-- ===== src/Examples/Responses.antt =====
-- Answers of a server, and attempts to reach it.
use aas_sign.Base.{
  ℕ, zero, suc, ◌≡◌, refl, ◌+◌, arith, List, [], ◌∷◌, ◌++◌, length, All, ok, stuck, Text, codes,
  false,
}
use aas_sign.Der.Integers.{pos}
use aas_sign.Web.RoundTrip.{Free}
use aas_sign.Process.{has_char}
use aas_sign.Http.{crlf, stoul_16, decode_chunks, parse_http_response}
use aas_sign.Http.Chunks.{encode_chunks, chunk_data, IsChunk, Wraps, decode_chunks-encode_chunks}
use aas_sign.Http.Endless.{decode_chunks-stuck-Wraps}
use aas_sign.Http.Retry.{
  Attempted, done, transient, IsRetried, retry_transient, retry_transient-IsRetried,
}

abbrev chunks : List (Text × Text)
chunks = (codes "2;x=y", codes "ab") ∷ (codes "0A", codes "0123456789") ∷ []

-- No character of the text is a carriage return.
plain : (text : Text) → has_char 13 text ≡ false → Free 13 text
unfolding has_char
plain [] h = tt
plain (c ∷ text) h = (ground arith, plain text (ground arith))

chunks-IsChunk : All IsChunk chunks
unfolding has_char stoul_16
chunks-IsChunk = (
  record { line = plain (codes "2;x=y") refl; size = refl; filled = omega arith },
  (record { line = plain (codes "0A") refl; size = refl; filled = omega arith }, tt),
)

decode_chunks-encode_chunks_example :
    decode_chunks (length (encode_chunks chunks) + 1) (encode_chunks chunks) 0 []
    ≡ ok (chunk_data chunks)
decode_chunks-encode_chunks_example =
    decode_chunks-encode_chunks chunks chunks-IsChunk (omega arith)

parsed :
    parse_http_response (
      codes "HTTP/1.1 200 OK"
      ++ crlf
      ++ codes "Transfer-Encoding: chunked"
      ++ crlf
      ++ crlf
      ++ encode_chunks chunks)
    ≡ ok (record { status = pos 200; body = codes "ab0123456789" })
unfolding parse_http_response
parsed = refl

-- A size of 2^64 - 20 puts the position back to the beginning.
abbrev hostile : Text
hostile = codes "ffffffffffffffec" ++ crlf

endless : (fuel : ℕ) (decoded : Text) → decode_chunks fuel hostile 0 decoded ≡ stuck
unfolding decode_chunks
endless zero decoded = refl
endless (suc fuel) decoded = endless fuel (decoded ++ [])

decode_chunks-stuck-Wraps_example : Wraps hostile
decode_chunks-stuck-Wraps_example =
    decode_chunks-stuck-Wraps hostile (endless (length hostile + 1) [])

-- The second attempt succeeds.
abbrev attempts : ℕ → Attempted ℕ
attempts (suc (suc n)) = done n
attempts _ = transient "reset"

retry_transient-IsRetried_example : IsRetried attempts 3 1 (retry_transient attempts 3)
retry_transient-IsRetried_example = retry_transient-IsRetried attempts 3 (omega arith)
