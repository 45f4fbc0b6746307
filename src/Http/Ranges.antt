-- ===== src/Http/Ranges.antt =====
-- What `GetRange` of `BaseClient` hands to the sink.
use ps5_ezremote_server.Prelude.{
  ◌-◌, subst, ℕ, ◌+◌, ◌^◌, ◌≤◌, ◌<◌, ◌≡◌, refl, sym, ap, ◌∙◌, Bool, true, false, Option, none, some,
  List, [], ◌∷◌, ◌++◌, length, take, drop, ◌==◌, arith, length-append,
}
use ps5_ezremote_server.Outcome.{Outcome, returns}
use ps5_ezremote_server.Words.{Bytes, codes, add64, sub64, to_string}
use ps5_ezremote_server.Text.{find}
use ps5_ezremote_server.Transfer.{Sink, Transferred}
use ps5_ezremote_server.Http.Received.{body, Received, receive-Received, front}
use ps5_ezremote_server.Http.Paths.{IsTrimmed, get_full_path-IsTrimmed}
use ps5_ezremote_server.Http.{
  HttpClient, BaseClient, Headers, Answer, cookie_text, set_cookies, get_full_path, receive,
  range_header, request, get_range,
}

-- What a server gives that honours the range: bytes of the range alone, and all of them unless
-- there is an error or the content ends.
pub record HonoursRange (content : Bytes) (size offset : ℕ) (a : Answer) : Type 0 where
  pub part : body a.chunks ≡ take (length (body a.chunks)) (drop offset content)
  pub most : length (body a.chunks) ≤ size

-- A result, with bytes of the range alone, in order and each once; all of them if it is a success.
pub record HandsOver {N : Type 0} (content : Bytes) (size offset : ℕ)
    (m : Outcome (Transferred × BaseClient × N)) : Type 0 where
  pub result : Transferred
  pub client : BaseClient
  pub net : N
  pub done : m ≡ returns (result, client, net)
  pub part : result.bytes ≡ take (length result.bytes) (drop offset content)
  pub most : length result.bytes ≤ size
  pub all : result.success ≡ true → length result.bytes ≡ size

first_kept :
    (header : Bytes × Bytes) (b : BaseClient) (cookies : List (Bytes × Bytes))
    → b.cookies ≡ cookies
    → (more : Headers) × (set_cookies b (header ∷ []) ≡ header ∷ more)
unfolding set_cookies
first_kept header b [] e = ([], simp (set_cookies, e))
first_kept header b (cookie ∷ cookies) e =
    ((codes "Cookie", cookie_text (cookie ∷ cookies)) ∷ [], simp (set_cookies, e))

-- The value of the header for `size` bytes from a position on, by RFC 7233: the last position is
-- that of the last byte.
abbrev pub byte_range : ℕ → ℕ → Bytes
byte_range offset size =
    codes "bytes=" ++ (to_string offset ++ (codes "-" ++ to_string (offset + size - 1)))

range_header-byte_range :
    (offset size : ℕ)
    → 0 < size
    → offset + size < 2 ^ 64
    → range_header offset size ≡ byte_range offset size
range_header-byte_range offset size some_bytes small =
    let last : sub64 (add64 offset size) 1 ≡ offset + size - 1 = omega arith in
    ap (λ k. codes "bytes=" ++ (to_string offset ++ (codes "-" ++ to_string k))) last

module _ {N : Type 0} (http_get : HttpClient → Bytes → Headers → N → Answer × N)
    (canceled : Bytes) where
  module _ (path : Bytes) (sink : Sink) (size offset : ℕ) (b : BaseClient) (client : HttpClient)
      (net : N) (full : Bytes) (more : Headers) (connected : b.client ≡ some client)
      (built : get_full_path path b ≡ returns full)
      (headers : set_cookies b ((codes "Range", range_header offset size) ∷ [])
        ≡ (codes "Range", range_header offset size) ∷ more) where
    abbrev answered : Answer × N
    answered = http_get client full ((codes "Range", range_header offset size) ∷ more) net

    requested :
        request http_get canceled b path ((codes "Range", range_header offset size) ∷ more) net
        ≡ returns answered
    unfolding request
    requested = simp (request, connected, built)

    stopped :
        (sent : Bytes) (count : ℕ)
        → receive sink answered.0.chunks [] 0 ≡ (false, sent, count)
        → get_range http_get canceled path sink size offset b net
          ≡ returns (
            record { success = false; bytes = sent },
            record b { response = canceled },
            answered.1,
          )
    unfolding get_range
    stopped sent count received = simp (get_range, headers, requested, received)

    ended :
        (sent : Bytes) (count : ℕ)
        → receive sink answered.0.chunks [] 0 ≡ (true, sent, count)
        → answered.0.error ≡ none
        → get_range http_get canceled path sink size offset b net
          ≡ returns (record { success = count == size; bytes = sent }, b, answered.1)
    unfolding get_range
    ended sent count received fine = simp (get_range, headers, requested, received, fine)

    erred :
        (sent text : Bytes) (count : ℕ)
        → receive sink answered.0.chunks [] 0 ≡ (true, sent, count)
        → answered.0.error ≡ some text
        → get_range http_get canceled path sink size offset b net
          ≡ returns
              (record { success = false; bytes = sent }, record b { response = text }, answered.1)
    unfolding get_range
    erred sent text count received error = simp (get_range, headers, requested, received, error)

    -- The three ways in which it ends.
    finish :
        (content : Bytes) (all : Bool) (error : Option Bytes)
        → HonoursRange content size offset answered.0
        → (r : Received answered.0.chunks [] 0 (receive sink answered.0.chunks [] 0)) → r.all ≡ all
        → answered.0.error ≡ error
        → HandsOver content size offset (get_range http_get canceled path sink size offset b net)
    finish content all error honours r e e' =
        let part =
          front r.new r.rest (drop offset content) (length (body answered.0.chunks))
            (r.part ∙ honours.part) in
        let most : length r.new ≤ size =
          omega (arith, ap length r.part, length-append r.new r.rest, honours.most) in
        finished all error e e' part most
      where
        finished :
            (all : Bool) (error : Option Bytes)
            → r.all ≡ all
            → answered.0.error ≡ error
            → r.new ≡ take (length r.new) (drop offset content)
            → length r.new ≤ size
            → HandsOver content size offset
                (get_range http_get canceled path sink size offset b net)
        finished false error e e' part most = record {
          result = record { success = false; bytes = r.new };
          client = record b { response = canceled };
          net = answered.1;
          done = stopped r.new r.count (r.done ∙ ap (λ a. (a, r.new, r.count)) e);
          part = part;
          most = most;
          all = λ k. ground (arith, k);
        }
        finished true none e e' part most = record {
          result = record { success = r.count == size; bytes = r.new };
          client = b;
          net = answered.1;
          done = ended r.new r.count (r.done ∙ ap (λ a. (a, r.new, r.count)) e) e';
          part = part;
          most = most;
          all = λ k. let w = r.whole e in ground (arith, k, w.1);
        }
        finished true (some text) e e' part most = record {
          result = record { success = false; bytes = r.new };
          client = record b { response = text };
          net = answered.1;
          done = erred r.new text r.count (r.done ∙ ap (λ a. (a, r.new, r.count)) e) e';
          part = part;
          most = most;
          all = λ k. ground (arith, k);
        }

  -- The client has a handle, nothing is to be trimmed of the path, there is no double slash in it
  -- or before it, and the range is not empty and ends within 64 bits. Asked for the path behind the
  -- base path, and for the bytes from `offset` to `offset + size - 1`, the server honours the
  -- range. Then `GetRange` returns, whatever the sink does; the sink has taken bytes of the range
  -- alone, in order and each once, and all of them if the result is 1.
  pub get_range-HandsOver :
      (content path : Bytes) (sink : Sink) (size offset : ℕ) (b : BaseClient) (client : HttpClient)
      (net : N)
      → 0 < size
      → offset + size < 2 ^ 64
      → b.client ≡ some client
      → IsTrimmed path
      → find (codes "//") (b.base_path ++ (codes "/" ++ path)) ≡ none
      → ((more : Headers)
          → HonoursRange content size offset
              (http_get client
                (b.base_path ++ (codes "/" ++ path))
                ((codes "Range", byte_range offset size) ∷ more)
                net).0)
      → HandsOver content size offset (get_range http_get canceled path sink size offset b net)
  get_range-HandsOver content path sink size offset b client net some_bytes small connected trimmed
        single server =
      let full = b.base_path ++ (codes "/" ++ path) in
      let (more, headers) = first_kept (codes "Range", range_header offset size) b b.cookies refl in
      let asked = range_header-byte_range offset size some_bytes small in
      let honours =
        subst
          (λ h.
            HonoursRange content size offset
              (http_get client full ((codes "Range", h) ∷ more) net).0)
          (sym asked) (server more) in
      let answer =
        (http_get client full ((codes "Range", range_header offset size) ∷ more) net).0 in
      finish path sink size offset b client net full more connected
        (get_full_path-IsTrimmed path b trimmed single) headers content _ answer.error honours
        (receive-Received sink answer.chunks [] 0 (omega (arith, honours.most, small))) refl refl
