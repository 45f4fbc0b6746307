-- ===== src/Http.antt =====
-- `BaseClient` of source/clients/baseclient.cpp. The HTTP library is a parameter: for a request it
-- gives the chunks of the body, and the text of an error if the request fails. Its options other
-- than these two are left out. A text that it gives for an error fits in `response`. `cookies` is
-- in the order of the map.
pub mod Paths
pub mod Received
pub mod Ranges
mod Tests
use ps5_ezremote_server.Prelude.{
  ℕ, zero, suc, ◌+◌, ◌<◌, ◌≤◌, ◌^◌, ◌%◌, Bool, true, false, not, ◌&&◌, Option, none, some, List, [],
  ◌∷◌, ◌++◌, length, take, drop, ltb, leb, ◌==◌, if◌then◌else◌,
}
use ps5_ezremote_server.Outcome.{Outcome, returns, undefined, out_of_fuel, ◌>>=◌}
use ps5_ezremote_server.Words.{Bytes, codes, add64, sub64, to_string}
use ps5_ezremote_server.Text.{find, trim, replace_all}
use ps5_ezremote_server.Transfer.{Sink, Transferred}

-- `httplib::Client`
pub record HttpClient : Type 0 where
  pub host : Bytes
  pub basic_auth : Option (Bytes × Bytes)
  pub url_encode : Bool

-- A null `client` is `none`.
pub record BaseClient : Type 0 where
  pub client : Option HttpClient
  pub host_url : Bytes
  pub base_path : Bytes
  pub cookies : List (Bytes × Bytes)
  pub response : Bytes
  pub connected : Bool

abbrev pub Headers : Type 0
Headers = List (Bytes × Bytes)

-- What a request gives: its chunks, and an error if there is one.
pub record Answer : Type 0 where
  pub chunks : List Bytes
  pub error : Option Bytes

-- The cookies, joined.
unfoldable pub cookie_text : List (Bytes × Bytes) → Bytes
cookie_text [] = []
cookie_text ((name, value) ∷ []) = name ++ (codes "=" ++ value)
cookie_text ((name, value) ∷ cookie ∷ cookies) =
    name ++ (codes "=" ++ (value ++ (codes "; " ++ cookie_text (cookie ∷ cookies))))

unfoldable pub set_cookies : BaseClient → Headers → Headers
set_cookies b headers = elim b.cookies [
  | [] ↦ headers
  | cookie ∷ cookies ↦ headers ++ ((codes "Cookie", cookie_text (cookie ∷ cookies)) ∷ [])
]

-- `text.find(needle, from)`
unfoldable pub find_from : Bytes → ℕ → Bytes → Option ℕ
find_from needle from text =
    if ltb (length text) from
    then none
    else elim (find needle (drop from text)) [ none ↦ none | some i ↦ some (from + i) ]

-- `scheme_pos + 3`, which wraps round for `npos`.
abbrev pub behind_scheme : Option ℕ → ℕ
behind_scheme none = 2
behind_scheme (some i) = i + 3

unfoldable pub connect : Bytes → Bytes → Bytes → BaseClient → BaseClient
connect url username password b =
    let root_pos = find_from (codes "/") (behind_scheme (find (codes "://") url)) url in
    let host : Bytes = elim root_pos [ none ↦ url | some i ↦ take i url ] in
    record b {
      host_url = host;
      base_path = elim root_pos [ none ↦ b.base_path | some i ↦ drop i url ];
      client = some (record {
        host = host;
        basic_auth = if ltb 0 (length username) then some (username, password) else none;
        url_encode = true;
      });
      connected = true;
    }

unfoldable pub get_path : Bytes → Bytes → BaseClient → Bytes
get_path ppath1 ppath2 b =
    let path1 = trim (trim ppath1 (codes " ")) (codes "/") in
    let path2 = trim (trim ppath2 (codes " ")) (codes "/") in
    let path =
      b.base_path
      ++ ((if ltb 0 (length b.base_path) then codes "/" else [])
          ++ (path1 ++ (codes "/" ++ path2))) in
    elim path [ [] ↦ codes "/" | c ∷ rest ↦ if c == b'/' then c ∷ rest else b'/' ∷ c ∷ rest ]

unfoldable pub get_full_path : Bytes → BaseClient → Outcome Bytes
get_full_path ppath1 b =
    let path1 = trim (trim ppath1 (codes " ")) (codes "/") in
    replace_all (b.base_path ++ (codes "/" ++ path1)) (codes "//") (codes "/")

unfoldable pub quit : BaseClient → BaseClient
quit b = record b { client = none; connected = false }

unfoldable pub is_connected : BaseClient → Bool
is_connected b = b.connected && elim b.client [ none ↦ false | some c ↦ true ]

unfoldable pub set_client_path_encoding : Bool → BaseClient → BaseClient
set_client_path_encoding enabled b = record b {
  client = elim b.client [ none ↦ none | some c ↦ some (record c { url_encode = enabled }) ];
}

-- The receiver of `GetRange` on the chunks: what the sink takes, `bytes_read`, and whether it takes
-- all.
unfoldable pub receive : Sink → List Bytes → Bytes → ℕ → Bool × Bytes × ℕ
receive sink [] sent bytes_read = (true, sent, bytes_read)
receive sink (data_ ∷ chunks) sent bytes_read = elim (sink sent data_) [
  | false ↦ (false, sent, add64 bytes_read (length data_))
  | true ↦ receive sink chunks (sent ++ data_) (add64 bytes_read (length data_))
]

-- "bytes=%lu-%lu"
abbrev pub range_header : ℕ → ℕ → Bytes
range_header offset size =
    codes "bytes=" ++ (to_string offset ++ (codes "-" ++ to_string (sub64 (add64 offset size) 1)))

-- `client->Get` on a null pointer is undefined. `canceled` is the error of a receiver that stops.
module _ {N : Type 0} (http_get : HttpClient → Bytes → Headers → N → Answer × N)
    (canceled : Bytes) where
  unfoldable pub request : BaseClient → Bytes → Headers → N → Outcome (Answer × N)
  request b path headers net = elim b.client [
    | none ↦ undefined
    | some client ↦ do full ← get_full_path path b; returns (http_get client full headers net)
  ]

  unfoldable pub get_range :
      Bytes → Sink → ℕ → ℕ → BaseClient → N → Outcome (Transferred × BaseClient × N)
  get_range path sink size offset b net = do
    let headers = set_cookies b ((codes "Range", range_header offset size) ∷ [])
    (answer, net') ← request b path headers net
    let (all, sent, bytes_read) = receive sink answer.chunks [] 0
    if all
        then elim answer.error [
          | none ↦ returns (record { success = bytes_read == size; bytes = sent }, b, net')
          | some text ↦
              returns (record { success = false; bytes = sent }, record b { response = text }, net')
        ]
        else returns
            (record { success = false; bytes = sent }, record b { response = canceled }, net')

  -- `Get`: what the output file then holds, and `*g_bytes_transfered`. Nothing says that the file
  -- was not opened; what is written to it is then lost.
  unfoldable pub get :
      Bool → Bytes → Bytes → ℕ → BaseClient → N → Outcome (Transferred × ℕ × BaseClient × N)
  get opened existing path offset b net = do
    let headers =
        set_cookies b []
        ++ (if ltb 0 offset
            then (codes "Range", codes "bytes=" ++ (to_string offset ++ codes "-")) ∷ []
            else [])
    (answer, net') ← request b path headers net
    let start = if ltb 0 offset then existing else []
    let (all, sent, bytes_transfered) = receive (λ sent chunk. true) answer.chunks start offset
    let file = if opened then sent else existing
    elim answer.error [
      | none ↦ returns (record { success = true; bytes = file }, bytes_transfered, b, net')
      | some text ↦ returns (
        record { success = false; bytes = file },
        bytes_transfered,
        record b { response = text },
        net',
      )
    ]
