-- ===== src/Text/Tests.antt =====
-- The string helpers on small strings, and the theorems about them at those.
use ps5_ezremote_server.Prelude.{◌<◌, ◌≡◌, refl, some, [], ◌∷◌, length, arith}
use ps5_ezremote_server.Outcome.{Outcome, returns}
use ps5_ezremote_server.Words.{Bytes, AreBytes, codes}
use ps5_ezremote_server.Text.{
  starts_with, find, url_hash, split_loop, split, replace_loop, replace_all, json_escape,
  escape_loop, append_json_escaped,
}
use ps5_ezremote_server.Text.Split.{SplitsInto, split-SplitsInto}
use ps5_ezremote_server.Text.Replace.{Replaces, replace_all-Replaces, replace_loop-empty}
use ps5_ezremote_server.Text.Hash.{IsPackageName, url_hash-IsPackageName}
use ps5_ezremote_server.Text.Escape.{
  Written, escaped, unescape, append_json_escaped-Written, append_json_escaped-whole,
}

abbrev cookies : Bytes
cookies = codes ";a=1;;b=2"

split-cookies : split cookies (codes ";") ≡ returns (codes "a=1" ∷ codes "b=2" ∷ [])
unfolding split split_loop find starts_with
split-cookies = refl

replace_all-slashes :
    replace_all (codes "a///b//") (codes "//") (codes "/") ≡ returns (codes "a//b/")
unfolding replace_all replace_loop find starts_with
replace_all-slashes = refl

append_json_escaped-full : append_json_escaped [] 4 (codes "a\"b") ≡ codes "a\\\""
unfolding append_json_escaped escape_loop json_escape
append_json_escaped-full = refl

split-SplitsInto_example : SplitsInto (codes ";") cookies (split cookies (codes ";"))
split-SplitsInto_example = split-SplitsInto (codes ";") cookies (omega arith)

replace_all-Replaces_example :
    Replaces
      (codes "//")
      (codes "/")
      []
      (codes "a//b")
      (replace_all (codes "a//b") (codes "//") (codes "/"))
replace_all-Replaces_example =
    replace_all-Replaces (codes "//") (codes "/") (codes "a//b") (omega arith)

append_json_escaped-Written_example :
    Written [] 4 (codes "a\"b") (append_json_escaped [] 4 (codes "a\"b"))
append_json_escaped-Written_example =
    append_json_escaped-Written [] 4 (codes "a\"b") (ground arith) (omega arith)

room : length (escaped (codes "a\"b")) < 8
unfolding escaped json_escape
room = omega arith

append_json_escaped-whole_example :
    (append_json_escaped [] 8 (codes "a\"b") ≡ escaped (codes "a\"b"))
    × (unescape (escaped (codes "a\"b")) ≡ some (codes "a\"b"))
append_json_escaped-whole_example =
    append_json_escaped-whole [] 8 (codes "a\"b") (ground arith) (omega (arith, room))

-- A digest of sixteen bytes.
abbrev some_digest : Bytes → Bytes
some_digest text = codes "0123456789abcdef"

some_digest-AreBytes : AreBytes (some_digest [])
some_digest-AreBytes = ground arith

url_hash-IsPackageName_example : IsPackageName 24 (url_hash some_digest (codes "http://h/a.pkg"))
url_hash-IsPackageName_example =
    url_hash-IsPackageName some_digest (codes "http://h/a.pkg") refl some_digest-AreBytes

replace_loop-empty_example : replace_loop 9 [] (codes "x") [] (codes "ab") ≡ Outcome.out_of_fuel
replace_loop-empty_example = replace_loop-empty 9 (codes "x") [] (codes "ab")
