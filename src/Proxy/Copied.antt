-- ===== src/Proxy/Copied.antt =====
-- When a copy to a connection is whole, and what it leaves as it was.
use atrium_core.Base.{
  ℕ, ◌+◌, ◌-◌, ◌≡◌, refl, ◌∙◌, Bool, true, false, ◌&&◌, none, some, [], ◌∷◌, Text, txt, length, leb,
  Bool-cases, inl, inr, arith, pos, lebℤ,
}
use atrium_core.Http.{
  Stream, eof, broken, too_large, chunk, Out, raw, set_header, write, write_header,
}
use atrium_core.Audit.{}
use atrium_core.Provider.{Content}
use atrium_core.Proxy.{Proxy, Link, copy, set_header_from, content_headers}
use atrium_core.Proxy.Limit.{size, send-none, send_fits, send_over}

abbrev pub ends_well : Stream → Bool
ends_well eof = true
ends_well broken = false
ends_well too_large = false
ends_well (chunk c s) = ends_well s

abbrev pub fits : Link → ℕ → Bool
fits none n = true
fits (some k) n = leb n k

-- Whether a body ends well and the connection takes all of it.
abbrev pub is_whole : Link → Stream → Bool
is_whole link s = ends_well s && fits link (size s)

write-log : (t : Text) (w : Out) → (write (raw t) w).log ≡ w.log
unfolding write write_header
write-log t w = ground arith

pub copy-log : (link : Link) (s : Stream) (n : ℕ) (w : Out) → (copy link s n w).1.log ≡ w.log
unfolding copy
copy-log link eof n w = refl
copy-log link broken n w = refl
copy-log link too_large n w = refl
copy-log none (chunk c s) n w =
    rw (send-none c, copy) (copy-log none s (n + length c) (write (raw c) w) ∙ write-log c w)
copy-log (some k) (chunk c s) n w = elim (Bool-cases (leb (length c) k)) [
  | inl e ↦
      rw (send_fits k c e, copy)
        (copy-log (some (k - length c)) s (n + length c) (write (raw c) w) ∙ write-log c w)
  | inr e ↦ rw (send_over k c e, copy) (write-log _ w)
]

fits-chunk :
    (k : ℕ) (c : Text) (s : Stream)
    → leb (length c) k ≡ true
    → is_whole (some (k - length c)) s ≡ is_whole (some k) (chunk c s)
fits-chunk k c s h = ground arith

cut_off-whole :
    (k : ℕ) (c : Text) (s : Stream)
    → leb (length c) k ≡ false
    → false ≡ is_whole (some k) (chunk c s)
cut_off-whole k c s h = ground arith

pub copy-whole :
    (link : Link) (s : Stream) (n : ℕ) (w : Out) → (copy link s n w).0.1 ≡ is_whole link s
unfolding copy
copy-whole none eof n w = refl
copy-whole (some k) eof n w = ground arith
copy-whole link broken n w = refl
copy-whole link too_large n w = refl
copy-whole none (chunk c s) n w =
    rw (send-none c, copy) (copy-whole none s (n + length c) (write (raw c) w))
copy-whole (some k) (chunk c s) n w = elim (Bool-cases (leb (length c) k)) [
  | inl e ↦
      rw (send_fits k c e, copy)
        (copy-whole (some (k - length c)) s (n + length c) (write (raw c) w) ∙ fits-chunk k c s e)
  | inr e ↦ rw (send_over k c e, copy) (cut_off-whole k c s e)
]

-- A response that differs in headers alone.
abbrev pub Kept : Out → Out → Type 0
Kept w v = (v.log ≡ w.log) × (v.body ≡ w.body)

set_header-Kept : (k v : Text) (w u : Out) → Kept w u → Kept w (set_header k v u)
unfolding set_header
set_header-Kept k v w u h = ground arith

set_header_from-Kept : (k v : Text) (w u : Out) → Kept w u → Kept w (set_header_from k v u)
unfolding set_header_from
set_header_from-Kept k [] w u h = h
set_header_from-Kept k (c ∷ v) w u h = set_header-Kept k (c ∷ v) w u h

pub content_headers-Kept : (p : Proxy) (c : Content) (w : Out) → Kept w (content_headers p c w)
unfolding content_headers
content_headers-Kept p c w =
    let named =
      set_header_from-Kept (txt "Content-Disposition") c.content_disposition w _
        (set_header_from-Kept (txt "Content-Type") c.content_type w w (refl, refl)) in
    elim (Bool-cases (lebℤ (pos 0) c.content_length)) [
      | inl e ↦ rw e (set_header-Kept _ _ w _ named)
      | inr e ↦ rw e named
    ]
