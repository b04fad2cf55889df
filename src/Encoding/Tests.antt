-- ===== src/Encoding/Tests.antt =====
-- Runs of the encoders and decoders of tornado/util/comm.cpp.
use simplesvr.Prelude.{◌≡◌, ◌↔◌, [], ◌∷◌, none, some, arith, Bytes, codes}
use simplesvr.Encoding.Hex.{hex, unhex, unhex_to_buff, hex_to_buff, wrote, out_of_bounds}
use simplesvr.Encoding.Hex.RoundTrip.{unhex-hex, hex_to_buff-out_of_bounds}
use simplesvr.Encoding.Base64.{encode_base64, encode_base64url, decode_base64, decoded}
use simplesvr.Encoding.Base64.RoundTrip.{IsEncodable, decode_base64-encode_base64}
use simplesvr.Encoding.Base64.Faults.{encode_base64-out_of_bounds}

abbrev hello : Bytes
hello = codes "hello"

abbrev two_bytes : Bytes
two_bytes = 171 ∷ 5 ∷ []

unhex-hex_example :
    (unhex (hex two_bytes) ≡ wrote two_bytes) × (unhex_to_buff (hex two_bytes) 2 ≡ wrote two_bytes)
unhex-hex_example = unhex-hex two_bytes (omega arith, (omega arith, tt))

hex_to_buff-out_of_bounds_example : hex_to_buff two_bytes 2 ≡ out_of_bounds
hex_to_buff-out_of_bounds_example =
    hex_to_buff-out_of_bounds two_bytes 2 (omega arith) (omega arith) (omega arith)

decode_base64-encode_base64_example :
    (d : Bytes) × (encode_base64 hello ≡ some d) × (decode_base64 d ≡ decoded hello)
decode_base64-encode_base64_example =
    decode_base64-encode_base64 hello
      (omega arith, omega arith, omega arith, (omega arith, omega arith))

abbrev high_bytes : Bytes
high_bytes = 1 ∷ 2 ∷ 200 ∷ 7 ∷ []

encode_base64-out_of_bounds_example :
    ((encode_base64 high_bytes ≡ none) ↔ (¬ (IsEncodable high_bytes)))
    × ((encode_base64url high_bytes ≡ none) ↔ (¬ (IsEncodable high_bytes)))
encode_base64-out_of_bounds_example =
    encode_base64-out_of_bounds high_bytes
      (omega arith, (omega arith, (omega arith, (omega arith, tt))))
