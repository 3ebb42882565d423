-- ===== src/Datagrams/Batches.antt =====
-- Datagrams that were written arrive as they were, however the stream is cut into chunks.
use rfrpv.Prelude.{
  ℕ, suc, ◌%◌, ◌/◌, ◌≤◌, ◌≡◌, refl, sym, ap, ◌∙◌, true, false, List, [], ◌∷◌, ◌++◌, Bytes, length,
  take, drop, ltb, is_empty, All, arith, append_assoc, append-nil, length-append,
  take-length-append, drop-length-append, take-append_le, drop-append_le, Bool-cases, inl, inr,
}
use rfrpv.Constants.{max_udp_packet_size}
use rfrpv.Errors.{ok}
use rfrpv.Protocol.Wire.{u32_mod, to_be_bytes, from_be_bytes, from_be_bytes-to_be_bytes}
use rfrpv.Datagrams.{append_udp_frame, append_udp_frames, parse_frames, read_batch}

abbrev pub concat : List Bytes → Bytes
concat [] = []
concat (b ∷ bs) = b ++ concat bs

-- Datagrams that fit into a packet.
abbrev pub Fit : List Bytes → Type 0
Fit = All (λ d. length d ≤ max_udp_packet_size)

-- The bytes of datagrams, one frame after the other.
abbrev pub framed : List Bytes → Bytes
framed [] = []
framed (d ∷ ds) = to_be_bytes (length d % u32_mod) ++ (d ++ framed ds)

pub append_udp_frames-framed :
    (ds : List Bytes) (scratch : Bytes)
    → Fit ds
    → append_udp_frames scratch ds ≡ ok (scratch ++ framed ds)
unfolding append_udp_frames append_udp_frame
append_udp_frames-framed [] scratch f = cc (append-nil scratch)
append_udp_frames-framed (d ∷ ds) scratch f =
    let head = to_be_bytes (length d % u32_mod) ++ d in
    let one : append_udp_frame scratch d ≡ ok (scratch ++ head) = ground (arith, f.0) in
    rw one (
      append_udp_frames-framed ds (scratch ++ head) f.1
      ∙ ap ok (
          append_assoc scratch head (framed ds)
          ∙ ap (λ t. scratch ++ t) (append_assoc (to_be_bytes (length d % u32_mod)) d (framed ds))))

-- The length that the front of a frame says.
front_length :
    (n : ℕ)
    → n ≤ max_udp_packet_size
    → (let m = n % u32_mod in
        from_be_bytes (m / 16777216 % 256) (m / 65536 % 256) (m / 256 % 256) (m % 256))
      ≡ n
front_length n h = from_be_bytes-to_be_bytes (n % u32_mod) (omega arith) ∙ omega arith

-- A buffer that has the whole front part of a stream.
split_stream :
    (buf more d tail : Bytes)
    → buf ++ more ≡ d ++ tail
    → length d ≤ length buf
    → (take (length d) buf ≡ d) × (drop (length d) buf ++ more ≡ tail)
split_stream buf more d tail h l = (
  sym (take-append_le (length d) buf more l) ∙ ap (take (length d)) h ∙ take-length-append d tail,
  sym (drop-append_le (length d) buf more l) ∙ ap (drop (length d)) h ∙ drop-length-append d tail,
)

-- What parsing leaves of the datagrams whose bytes begin in the buffer and go on in `more`.
record Parsed (limit : ℕ) (buf more : Bytes) (ds : List Bytes) : Type 0 where
  got : List Bytes
  rest : List Bytes
  left : Bytes
  result : parse_frames limit buf ≡ ok (got, left)
  order : got ++ rest ≡ ds
  stream : left ++ more ≡ framed rest
  waits : is_empty got ≡ true → left ≡ buf

parse_frames-Parsed :
    (limit : ℕ) (buf more : Bytes) (ds : List Bytes)
    → Fit ds
    → buf ++ more ≡ framed ds
    → Parsed limit buf more ds
unfolding parse_frames to_be_bytes
parse_frames-Parsed (suc limit) (a ∷ b ∷ c ∷ e ∷ buf) more [] f h = cc
parse_frames-Parsed (suc limit) (a ∷ b ∷ c ∷ e ∷ buf) more (d ∷ ds) f h =
    let len : from_be_bytes a b c e ≡ length d = cc (front_length (length d) f.0) in
    let body : buf ++ more ≡ d ++ framed ds = cc in
    elim (Bool-cases (ltb (length buf) (length d))) [
      | inl short ↦ record {
        got = [];
        rest = d ∷ ds;
        left = a ∷ b ∷ c ∷ e ∷ buf;
        result = rw len (ground (arith, f.0));
        order = refl;
        stream = h;
        waits = λ e. refl;
      }
      | inr whole ↦
          let (front, back) = split_stream buf more d (framed ds) body (ground arith) in
          let p = parse_frames-Parsed limit (drop (length d) buf) more ds f.1 back in
          record {
            got = d ∷ p.got;
            rest = p.rest;
            left = p.left;
            result = rw (len, front, p.result) (ground (arith, f.0));
            order = ap (◌∷◌ d) p.order;
            stream = p.stream;
            waits = λ e. cc;
          }
    ]
parse_frames-Parsed limit buf more ds f h = record {
  got = [];
  rest = ds;
  left = buf;
  result = refl;
  order = refl;
  stream = h;
  waits = λ e. refl;
}

ltb-false : {a b : ℕ} → b ≤ a → ltb a b ≡ false
ltb-false {a} {b} h = ground arith

-- A whole frame at the front of the buffer is parsed at once.
parse_frames-front :
    (limit : ℕ) (d : Bytes) (ds : List Bytes)
    → Fit (d ∷ ds)
    → (got : List Bytes) × (left : Bytes) × (parse_frames (suc limit) (framed (d ∷ ds))
        ≡ ok (d ∷ got, left))
unfolding parse_frames to_be_bytes
parse_frames-front limit d ds f =
    let p = parse_frames-Parsed limit (framed ds) [] ds f.1 (append-nil (framed ds)) in
    let small : ltb max_udp_packet_size (length d) ≡ false = ground (arith, f.0) in
    let whole : ltb (length (d ++ framed ds)) (length d) ≡ false =
      ltb-false (omega (arith, length-append d (framed ds))) in
    (
      p.got,
      p.left,
      rw
          (
            front_length (length d) f.0,
            take-length-append d (framed ds),
            drop-length-append d (framed ds),
            p.result,
            small,
            whole,
          )
          refl,
    )

-- Chunks of a stream that goes on.
abbrev pub Flowing : List Bytes → Type 0
Flowing = All (λ c. is_empty c ≡ false)

-- What a batch is of the datagrams whose bytes are in the buffer and in the chunks to come: the
-- first ones, in order and unchanged, while the bytes of the others are still in the buffer and the
-- reader; it is empty only if there were none.
pub record Received (limit : ℕ) (buf : Bytes) (chunks ds : List Bytes) : Type 0 where
  pub got : List Bytes
  pub rest : List Bytes
  pub left : Bytes
  pub later : List Bytes
  pub result : read_batch limit buf chunks ≡ ok (got, left, later)
  pub order : got ++ rest ≡ ds
  pub stream : left ++ concat later ≡ framed rest
  pub progress : is_empty got ≡ true → ds ≡ []
  pub flows : Flowing later

last_batch :
    (limit : ℕ) (buf : Bytes) (ds : List Bytes)
    → Fit ds
    → buf ≡ framed ds
    → Received (suc limit) buf [] ds
unfolding read_batch
last_batch limit buf [] f h = record {
  got = [];
  rest = [];
  left = [];
  later = [];
  result = rw h refl;
  order = refl;
  stream = refl;
  progress = λ e. refl;
  flows = tt;
}
last_batch limit buf (d ∷ ds) f h =
    let p = parse_frames-Parsed (suc limit) buf [] (d ∷ ds) f (append-nil buf ∙ h) in
    let (got, left, whole) = parse_frames-front limit d ds f in
    let full : is_empty p.got ≡ false = cc (h, whole, p.result) in
    record {
      got = p.got;
      rest = p.rest;
      left = p.left;
      later = [];
      result = rw p.result (ground arith);
      order = p.order;
      stream = p.stream;
      progress = λ e. absurd (cc (e, full));
      flows = tt;
    }

-- Reading a batch, with a limit above zero, from a stream that carries written datagrams, however
-- its bytes are cut into chunks, never fails and never gives anything else than these datagrams.
pub read_batch-Received :
    (limit : ℕ) (chunks : List Bytes) (buf : Bytes) (ds : List Bytes)
    → Flowing chunks
    → Fit ds
    → buf ++ concat chunks ≡ framed ds
    → Received (suc limit) buf chunks ds
unfolding read_batch
read_batch-Received limit [] buf ds w f h = last_batch limit buf ds f (sym (append-nil buf) ∙ h)
read_batch-Received limit (chunk ∷ chunks) buf ds w f h =
    let p = parse_frames-Parsed (suc limit) buf (concat (chunk ∷ chunks)) ds f h in
    elim (Bool-cases (is_empty p.got)) [
      | inl none_yet ↦
          let same = p.waits none_yet in
          let r =
            read_batch-Received limit chunks (buf ++ chunk) ds w.1 f
              (append_assoc buf chunk (concat chunks) ∙ h) in
          record {
            got = r.got;
            rest = r.rest;
            left = r.left;
            later = r.later;
            result = rw (p.result, same) (ground (arith, r.result, w.0));
            order = r.order;
            stream = r.stream;
            progress = r.progress;
            flows = r.flows;
          }
      | inr some_now ↦ record {
        got = p.got;
        rest = p.rest;
        left = p.left;
        later = chunk ∷ chunks;
        result = rw p.result (ground arith);
        order = p.order;
        stream = p.stream;
        progress = λ e. absurd (cc (e, some_now));
        flows = w;
      }
    ]
