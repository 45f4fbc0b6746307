-- ===== src/Http/Received.antt =====
-- What the receiver of a body hands to the sink.
use ps5_ezremote_server.Prelude.{
  ℕ, zero, suc, ◌+◌, ◌^◌, ◌<◌, ◌≡◌, refl, sym, ap, ◌∙◌, Bool, true, false, List, [], ◌∷◌, ◌++◌,
  length, take, inl, inr, Bool-cases, arith, append-nil, append_assoc, length-append,
}
use ps5_ezremote_server.Words.{Bytes, add64}
use ps5_ezremote_server.Transfer.{Sink}
use ps5_ezremote_server.Http.{receive}

-- The body of an answer.
abbrev pub body : List Bytes → Bytes
body [] = []
body (chunk ∷ chunks) = chunk ++ body chunks

-- The sink has taken a beginning of the body; all of it, and it was counted, unless it refused a
-- chunk.
pub record Received (chunks : List Bytes) (sent : Bytes) (bytes_read : ℕ) (m : Bool × Bytes × ℕ)
    : Type 0 where
  pub all : Bool
  pub new : Bytes
  pub rest : Bytes
  pub count : ℕ
  pub done : m ≡ (all, sent ++ new, count)
  pub part : new ++ rest ≡ body chunks
  pub whole : all ≡ true → (rest ≡ []) × (count ≡ bytes_read + length new)

module _ (sink : Sink) (chunk : Bytes) (chunks : List Bytes) (sent : Bytes) (bytes_read : ℕ) where
  received_taken :
      sink sent chunk ≡ true
      → receive sink (chunk ∷ chunks) sent bytes_read
        ≡ receive sink chunks (sent ++ chunk) (add64 bytes_read (length chunk))
  unfolding receive
  received_taken e = rw (receive, e) refl

  received_refused :
      sink sent chunk ≡ false
      → receive sink (chunk ∷ chunks) sent bytes_read
        ≡ (false, sent, add64 bytes_read (length chunk))
  unfolding receive
  received_refused e = rw (receive, e) refl

pub receive-Received :
    (sink : Sink) (chunks : List Bytes) (sent : Bytes) (bytes_read : ℕ)
    → bytes_read + length (body chunks) < 2 ^ 64
    → Received chunks sent bytes_read (receive sink chunks sent bytes_read)
receive-Received sink [] sent bytes_read small = record {
  all = true;
  new = [];
  rest = [];
  count = bytes_read;
  done = unfold receive in ap (λ l. (true, l, bytes_read)) (sym (append-nil sent));
  part = refl;
  whole = λ e. (refl, omega arith);
}
receive-Received sink (chunk ∷ chunks) sent bytes_read small =
    let sum : add64 bytes_read (length chunk) ≡ bytes_read + length chunk =
      omega (arith, length-append chunk (body chunks)) in
    let more =
      receive-Received sink chunks (sent ++ chunk) (add64 bytes_read (length chunk))
        (omega (arith, sum, length-append chunk (body chunks))) in
    elim (Bool-cases (sink sent chunk)) [
      | inl taken ↦ record {
        all = more.all;
        new = chunk ++ more.new;
        rest = more.rest;
        count = more.count;
        done =
            received_taken sink chunk chunks sent bytes_read taken
            ∙ more.done
            ∙ ap (λ l. (more.all, l, more.count)) (append_assoc sent chunk more.new);
        part = append_assoc chunk more.new more.rest ∙ ap (λ l. chunk ++ l) more.part;
        whole = λ e.
            let w = more.whole e in (w.0, omega (arith, w.1, sum, length-append chunk more.new));
      }
      | inr refused ↦ record {
        all = false;
        new = [];
        rest = chunk ++ body chunks;
        count = add64 bytes_read (length chunk);
        done =
            received_refused sink chunk chunks sent bytes_read refused
            ∙ ap (λ l. (false, l, add64 bytes_read (length chunk))) (sym (append-nil sent));
        part = refl;
        whole = λ e. ground (arith, e);
      }
    ]

pub front :
    (new rest whole : Bytes) (n : ℕ) → new ++ rest ≡ take n whole → new ≡ take (length new) whole
front [] rest whole n e = refl
front (x ∷ new) rest whole zero e = cc
front (x ∷ new) rest [] (suc n) e = cc
front (x ∷ new) rest (y ∷ whole) (suc n) e =
    let more = front new rest whole n (cc e) in cc (e, more)
