-- ===== src/Proxy/Limit.antt =====
-- The size limit of uploads, and what a copy delivers.
use mathlib.Core.List.{append-nil, append_assoc}
use atrium_core.Base.{
  ℕ, zero, suc, ◌+◌, ◌-◌, ◌≤◌, ◌<◌, ◌≡◌, refl, sym, ap, ◌∙◌, Bool, true, false, none, some, List,
  [], ◌∷◌, ◌++◌, Text, take, length, length-append, length-take, arith, leb, Bool-cases, inl, inr,
}
use atrium_core.Http.{
  Stream, eof, broken, too_large, chunk, Out, Piece, raw, json, write, write_header,
}
use atrium_core.Proxy.{max_bytes, Link, sent, cut_off, send, copy}

abbrev pub size : Stream → ℕ
size (chunk c s) = length c + size s
size eof = 0
size broken = 0
size too_large = 0

-- Everything but the chunks.
abbrev pub ending : Stream → Stream
ending (chunk c s) = ending s
ending eof = eof
ending broken = broken
ending too_large = too_large

-- Through the limit come at most `n` bytes. A body of at most `n` bytes comes through as it is; of a
-- longer one exactly `n` bytes come, and then the error of the limit.
pub max_bytes_lem :
    (n : ℕ) (s : Stream)
    → (size (max_bytes n s) ≤ n)
      × (size s ≤ n → max_bytes n s ≡ s)
      × (n < size s → (size (max_bytes n s) ≡ n) × (ending (max_bytes n s) ≡ too_large))
unfolding max_bytes
max_bytes_lem n eof = (omega arith, λ h. refl, λ h. absurd (omega arith))
max_bytes_lem n broken = (omega arith, λ h. refl, λ h. absurd (omega arith))
max_bytes_lem n too_large = (omega arith, λ h. refl, λ h. absurd (omega arith))
max_bytes_lem n (chunk c s) =
    let (below, small, large) = max_bytes_lem (n - length c) s in
    elim (Bool-cases (leb (length c) n)) [
      | inl fits ↦ rw fits (
        ground arith,
        λ h. ap (chunk c) (small (omega arith)),
        λ h. (ground (arith, (large (ground arith)).0), (large (ground arith)).1),
      )
      | inr over ↦ rw over (
        ground (arith, length-take n c),
        λ h. absurd (ground arith),
        λ h. (ground (arith, length-take n c), refl),
      )
    ]

abbrev pub bytes_of : Stream → Text
bytes_of (chunk c s) = c ++ bytes_of s
bytes_of eof = []
bytes_of broken = []
bytes_of too_large = []

-- The raw bytes of a response.
abbrev pub raw_bytes : List Piece → Text
raw_bytes [] = []
raw_bytes (raw t ∷ ps) = t ++ raw_bytes ps
raw_bytes (json j ∷ ps) = raw_bytes ps

raw_bytes-append : (ps : List Piece) (t : Text) → raw_bytes (ps ++ raw t ∷ []) ≡ raw_bytes ps ++ t
raw_bytes-append [] t = append-nil t
raw_bytes-append (raw u ∷ ps) t =
    ap (λ s. u ++ s) (raw_bytes-append ps t) ∙ sym (append_assoc u (raw_bytes ps) t)
raw_bytes-append (json j ∷ ps) t = raw_bytes-append ps t

write_header-body : (code : ℕ) (w : Out) → (write_header code w).body ≡ w.body
unfolding write_header
write_header-body code w = ground arith

write-raw : (t : Text) (w : Out) → raw_bytes (write (raw t) w).body ≡ raw_bytes w.body ++ t
unfolding write
write-raw t w =
    raw_bytes-append (write_header 200 w).body t
    ∙ ap (λ ps. raw_bytes ps ++ t) (write_header-body 200 w)

-- What a copy has delivered: a first part of the bytes of the body, appended to the response in order
-- and counted; all of them if the copy ended well.
pub record Delivered (s : Stream) (n : ℕ) (w : Out) (result : (ℕ × Bool) × Out) : Type 0 where
  pub first : Text
  pub missing : Text
  pub whole : bytes_of s ≡ first ++ missing
  pub appended : raw_bytes result.1.body ≡ raw_bytes w.body ++ first
  pub counted : result.0.0 ≡ n + length first
  pub complete : result.0.1 ≡ true → (missing ≡ []) × (ending s ≡ eof)

-- What `send` hands on is a first part of the chunk.
take_prefix : (k : ℕ) (c : Text) → (rest : Text) × (c ≡ take k c ++ rest)
take_prefix zero c = (c, refl)
take_prefix (suc k) [] = ([], refl)
take_prefix (suc k) (x ∷ c) = let (rest, e) = take_prefix k c in (rest, ap (λ t. x ∷ t) e)

pub send-none : (c : Text) → send none c ≡ sent none c
unfolding send
send-none c = refl

pub send_fits :
    (k : ℕ) (c : Text) → leb (length c) k ≡ true → send (some k) c ≡ sent (some (k - length c)) c
unfolding send
send_fits k c h = rw h

pub send_over : (k : ℕ) (c : Text) → leb (length c) k ≡ false → send (some k) c ≡ cut_off (take k c)
unfolding send
send_over k c h = rw h

module _ (c : Text) (s : Stream) (n : ℕ) (w : Out) where
  Delivered-chunk :
      (result : (ℕ × Bool) × Out)
      → Delivered s (n + length c) (write (raw c) w) result
      → Delivered (chunk c s) n w result
  Delivered-chunk result d = record {
    first = c ++ d.first;
    missing = d.missing;
    whole = ap (λ t. c ++ t) d.whole ∙ sym (append_assoc c d.first d.missing);
    appended =
        d.appended
        ∙ ap (λ t. t ++ d.first) (write-raw c w)
        ∙ append_assoc (raw_bytes w.body) c d.first;
    counted = omega (arith, d.counted, length-append c d.first);
    complete = d.complete;
  }

  Delivered-cut_off :
      (k : ℕ) → Delivered (chunk c s) n w ((n + length (take k c), false), write (raw (take k c)) w)
  Delivered-cut_off k =
      let (rest, e) = take_prefix k c in
      record {
        first = take k c;
        missing = rest ++ bytes_of s;
        whole = ap (λ t. t ++ bytes_of s) e ∙ append_assoc (take k c) rest (bytes_of s);
        appended = write-raw (take k c) w;
        counted = refl;
        complete = λ h. cc;
      }

Delivered-end :
    (s : Stream) (n : ℕ) (w : Out) (b : Bool)
    → bytes_of s ≡ []
    → (b ≡ true → ending s ≡ eof)
    → Delivered s n w ((n, b), w)
Delivered-end s n w b e k = record {
  first = [];
  missing = [];
  whole = e;
  appended = sym (append-nil (raw_bytes w.body));
  counted = omega arith;
  complete = λ h. (refl, k h);
}

-- Whatever the connection takes, a copy delivers a first part of the body, in order and nothing else,
-- and reports success only if all of a body that ended well has been delivered.
pub copy-Delivered :
    (link : Link) (s : Stream) (n : ℕ) (w : Out) → Delivered s n w (copy link s n w)
unfolding copy
copy-Delivered link eof n w = Delivered-end eof n w true refl (λ h. refl)
copy-Delivered link broken n w = Delivered-end broken n w false refl (λ h. cc)
copy-Delivered link too_large n w = Delivered-end too_large n w false refl (λ h. cc)
copy-Delivered none (chunk c s) n w =
    rw (send-none c, copy)
      (Delivered-chunk c s n w _ (copy-Delivered none s (n + length c) (write (raw c) w)))
copy-Delivered (some k) (chunk c s) n w = elim (Bool-cases (leb (length c) k)) [
  | inl fits ↦
      rw (send_fits k c fits, copy)
        (Delivered-chunk c s n w _
          (copy-Delivered (some (k - length c)) s (n + length c) (write (raw c) w)))
  | inr over ↦ rw (send_over k c over, copy) (Delivered-cut_off c s n w k)
]
