-- ===== src/Http/Tests.antt =====
-- Tests of `BaseClient`, with a server that honours ranges, and the witness.
use ps5_ezremote_server.Prelude.{
  ℕ, ◌+◌, ◌≡◌, refl, ◌&&◌, if◌then◌else◌, true, false, none, some, [], ◌∷◌, arith,
}
use ps5_ezremote_server.Outcome.{returns}
use ps5_ezremote_server.Words.{Bytes, codes, same, digits, to_string}
use ps5_ezremote_server.Text.{
  starts_with, find, is_among, ltrim, rtrim, trim, replace_loop, replace_all,
}
use ps5_ezremote_server.Http.{
  HttpClient, BaseClient, Headers, Answer, cookie_text, set_cookies, find_from, get, receive,
  request, connect, get_full_path, get_range,
}
use ps5_ezremote_server.Http.Paths.{IsTrimmed}
use ps5_ezremote_server.Http.Ranges.{byte_range, HonoursRange, HandsOver, get_range-HandsOver}

abbrev fresh : BaseClient
fresh = record {
  client = none;
  host_url = [];
  base_path = [];
  cookies = (codes "id", codes "7") ∷ [];
  response = [];
  connected = false;
}

abbrev some_client : HttpClient
some_client = record { host = codes "http://h:80"; basic_auth = none; url_encode = true }

abbrev connected_client : BaseClient
connected_client = record fresh {
  client = some some_client;
  host_url = codes "http://h:80";
  base_path = codes "/a/b";
  connected = true;
}

connect_test : connect (codes "http://h:80/a/b") [] [] fresh ≡ connected_client
unfolding connect find_from find starts_with
connect_test = refl

-- A host without a path leaves the path of the one before.
connect_test_again : (connect (codes "http://k") [] [] connected_client).base_path ≡ codes "/a/b"
unfolding connect find_from find starts_with
connect_test_again = refl

get_full_path_test : get_full_path (codes " /c d/ ") connected_client ≡ returns (codes "/a/b/c d")
unfolding get_full_path trim ltrim rtrim is_among replace_all replace_loop find starts_with
get_full_path_test = refl

set_cookies_test : set_cookies fresh [] ≡ (codes "Cookie", codes "id=7") ∷ []
unfolding set_cookies cookie_text
set_cookies_test = refl

-- The content of "/a/b/f" is "abcdef", and the one range that is honoured comes in two chunks.
abbrev first_value : Headers → Bytes
first_value [] = []
first_value ((name, value) ∷ headers) = value

abbrev some_server : HttpClient → Bytes → Headers → ℕ → Answer × ℕ
some_server client path headers net =
    if same path (codes "/a/b/f") && same (first_value headers) (codes "bytes=2-4")
    then (record { chunks = codes "c" ∷ codes "de" ∷ []; error = none }, net + 1)
    else (record { chunks = codes "abcdef" ∷ []; error = none }, net + 1)

f-IsTrimmed : IsTrimmed (codes "f")
f-IsTrimmed = record {
  first = b'f';
  rest = [];
  init = [];
  last = b'f';
  begins = refl;
  ends = refl;
  first_inner = (refl, refl);
  last_inner = (refl, refl);
}

f-single : find (codes "//") (codes "/a/b/f") ≡ none
unfolding find starts_with
f-single = refl

f-HonoursRange :
    (more : Headers)
    → HonoursRange
        (codes "abcdef")
        3
        2
        (some_server some_client (codes "/a/b/f") ((codes "Range", byte_range 2 3) ∷ more) 0).0
unfolding same to_string digits
f-HonoursRange more = record { part = refl; most = omega arith }

get_range-HandsOver_example : HandsOver (codes "abcdef") 3 2 (
    get_range some_server
      (codes "Canceled")
      (codes "f")
      (λ sent chunk. true)
      3
      2
      connected_client
      0)
get_range-HandsOver_example =
    get_range-HandsOver some_server (codes "Canceled") (codes "abcdef") (codes "f")
      (λ sent chunk. true) 3 2 connected_client some_client 0 (omega arith) (omega arith) refl
      f-IsTrimmed f-single f-HonoursRange

-- A download that goes on, from a server that ignores the range, and one whose file was not opened.
get_test :
    get some_server (codes "Canceled") true (codes "ab") (codes "f") 2 connected_client 0
    ≡ returns (record { success = true; bytes = codes "ababcdef" }, 8, connected_client, 1)
unfolding get same request set_cookies cookie_text receive get_full_path trim ltrim rtrim is_among
    replace_all replace_loop find starts_with
get_test = refl

get_test_unopened :
    get some_server (codes "Canceled") false [] (codes "f") 0 connected_client 0
    ≡ returns (record { success = true; bytes = [] }, 6, connected_client, 1)
unfolding get same request set_cookies cookie_text receive get_full_path trim ltrim rtrim is_among
    replace_all replace_loop find starts_with
get_test_unopened = refl
