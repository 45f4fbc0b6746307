-- ===== src/Base64/Tests.antt =====
-- The codec on small texts, and the theorems about it at them.
use ps5_ezremote_server.Prelude.{◌+◌, ◌*◌, ◌/◌, ◌≡◌, refl, none, some, length, arith}
use ps5_ezremote_server.Outcome.{returns, undefined, ◌>>=◌}
use ps5_ezremote_server.Words.{Bytes, AreBytes, codes}
use ps5_ezremote_server.Base64.{encode, decode}
use ps5_ezremote_server.Base64.Reference.{reference, sextet_char}
use ps5_ezremote_server.Base64.Encoding.{encode-eq-reference, encode_short}
use ps5_ezremote_server.Base64.RoundTrip.{decode-encode}

abbrev word : Bytes
word = codes "Many"

word-AreBytes : AreBytes word
word-AreBytes = (omega arith, (omega arith, (omega arith, (omega arith, tt))))

reference-word : reference word ≡ codes "TWFueQ=="
unfolding reference sextet_char
reference-word = refl

encode-eq-reference_example : encode word ≡ returns (reference word)
encode-eq-reference_example = encode-eq-reference word (omega arith) (omega arith) word-AreBytes

encode_short_example : encode (codes "M") ≡ undefined
encode_short_example = encode_short (codes "M") (omega arith)

decode-encode_example :
    (encode word >>= decode ≡ returns (some word))
    × (encode word >>= (λ text. returns (length text)) ≡ returns (4 * ((length word + 2) / 3)))
decode-encode_example = decode-encode word (omega arith) (omega arith) word-AreBytes

decode_test : decode (codes "TWF") ≡ returns none
unfolding decode
decode_test = refl
