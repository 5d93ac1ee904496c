-- ===== src/Webui/Scan.antt =====
-- The loop of inlineScriptHashes ends, and finds every script.
use atrium_core.Base.{
  ℕ, zero, suc, ◌+◌, ◌≤◌, ◌<◌, ◌≡◌, sym, true, false, Option, none, some, List, [], ◌∷◌, ◌++◌, Text,
  txt, length, length-append, Bool-cases, Option-cases, inl, inr, eqb, arith,
}
use mathlib.Core.Path.{subst}
use atrium_core.Strings.{has_prefix, contains, cut, cut_text, cons_fst, drop}
use atrium_core.Base64.{encode_std}
use atrium_core.Webui.Occurs.{IsAbsent, IsFirst, IsFound, cut_text-IsFound, cut-IsFound}
use atrium_core.Webui.{
  ShellCodec, next_script, tag_of, script_content, hash_token, hashes_from, inline_script_hashes,
}

-- What stands behind a cut, and `k` bytes more, fit into `n` bytes.
abbrev Leaves : ℕ → ℕ → Option (Text × Text) → Type 0
Leaves k n none = Unit
Leaves k n (some (before, after)) = k + length after ≤ n

length-drop : (p s : Text) → has_prefix s p ≡ true → length p + length (drop p s) ≤ length s
unfolding has_prefix
length-drop [] s h = omega arith
length-drop (p ∷ ps) [] h = absurd (cc (h))
length-drop (p ∷ ps) (c ∷ s) h = ground (arith, length-drop ps s)

cons_fst-Leaves :
    (k n c : ℕ) (o : Option (Text × Text)) → Leaves k n o → Leaves k (suc n) (cons_fst c o)
cons_fst-Leaves k n c none h = tt
cons_fst-Leaves k n c (some (before, after)) h = omega arith

cut_text-Leaves : (sub s : Text) → Leaves (length sub) (length s) (cut_text sub s)
unfolding cut_text
cut_text-Leaves sub [] = elim (Bool-cases (has_prefix [] sub)) [
  | inl e ↦ let fits = length-drop sub [] e in rw e (omega arith)
  | inr e ↦ rw e tt
]
cut_text-Leaves sub (c ∷ s) = elim (Bool-cases (has_prefix (c ∷ s) sub)) [
  | inl e ↦ rw e (length-drop sub (c ∷ s) e)
  | inr e ↦ rw e (cons_fst-Leaves _ _ c (cut_text sub s) (cut_text-Leaves sub s))
]

cut-Leaves : (b : ℕ) (s : Text) → Leaves 1 (length s) (cut b s)
unfolding cut
cut-Leaves b [] = tt
cut-Leaves b (c ∷ s) = elim (Bool-cases (eqb c b)) [
  | inl e ↦ rw e (omega arith)
  | inr e ↦ rw e (cons_fst-Leaves _ _ c (cut b s) (cut-Leaves b s))
]

abbrev IsShorter : ℕ → Option (Text × Text × Text) → Type 0
IsShorter n none = Unit
IsShorter n (some (open_tag, content, rest)) = length rest < n

script_content-IsShorter :
    (n : ℕ) (o : Option (Text × Text)) → Leaves 1 n o → IsShorter n (script_content o)
script_content-IsShorter n none h = tt
script_content-IsShorter n (some (open_tag, s)) h =
    behind (cut_text (txt "</script>") s) (cut_text-Leaves (txt "</script>") s)
  where
    behind :
        (o : Option (Text × Text))
        → Leaves (length (txt "</script>")) (length s) o
        → IsShorter n
            (elim o [ none ↦ none | some (content, rest) ↦ some (open_tag, content, rest) ])
    behind none k = tt
    behind (some (content, rest)) k = omega arith

script_tag-Leaves :
    (s : Text) → Leaves 1 (length (txt "<script") + length s) (cut b'>' (txt "<script" ++ s))
script_tag-Leaves s =
    rw (sym (length-append (txt "<script") s)) (cut-Leaves b'>' (txt "<script" ++ s))

tag_of-IsShorter :
    (n : ℕ) (o : Option (Text × Text))
    → Leaves (length (txt "<script")) n o
    → IsShorter n (tag_of o)
tag_of-IsShorter n none h = tt
tag_of-IsShorter n (some (before, s)) h =
    shorter (script_content (cut b'>' (txt "<script" ++ s)))
      (script_content-IsShorter _ _ (script_tag-Leaves s))
  where
    shorter :
        (o : Option (Text × Text × Text))
        → IsShorter (length (txt "<script") + length s) o
        → IsShorter n o
    shorter none k = tt
    shorter (some (open_tag, content, rest)) k = omega arith

next_script-IsShorter : (s : Text) → IsShorter (length s) (next_script s)
unfolding next_script
next_script-IsShorter s =
    tag_of-IsShorter (length s) (cut_text (txt "<script") s) (cut_text-Leaves (txt "<script") s)

-- No complete script is left in a text: no opening tag begins in it, the first one does not end, or the script
-- behind the first one is not closed.
pub data IsDone (s : Text) : Type 0 where
  no_tag : IsAbsent (txt "<script") s → IsDone s
  no_tag_end :
      {before tail : Text}
      → IsFirst (txt "<script") s before tail
      → IsAbsent (b'>' ∷ []) (txt "<script" ++ tail)
      → IsDone s
  not_closed :
      {before tail open_tag body : Text}
      → IsFirst (txt "<script") s before tail
      → IsFirst (b'>' ∷ []) (txt "<script" ++ tail) open_tag body
      → IsAbsent (txt "</script>") body
      → IsDone s

-- The first script of a text: its opening tag up to the first ">", its content up to the first closing tag, and
-- the text behind that.
pub record IsScript (s open_tag content later : Text) : Type 0 where
  pub before : Text
  pub tail : Text
  pub body : Text
  pub begins : IsFirst (txt "<script") s before tail
  pub tag_ends : IsFirst (b'>' ∷ []) (txt "<script" ++ tail) open_tag body
  pub closes : IsFirst (txt "</script>") body content later

abbrev IsNext : Text → Option (Text × Text × Text) → Type 0
IsNext s none = IsDone s
IsNext s (some (open_tag, content, later)) = IsScript s open_tag content later

script_content-IsNext :
    (s before tail : Text) (o : Option (Text × Text))
    → IsFirst (txt "<script") s before tail
    → IsFound (b'>' ∷ []) (txt "<script" ++ tail) o
    → IsNext s (script_content o)
script_content-IsNext s before tail none h k = no_tag_end h k
script_content-IsNext s before tail (some (open_tag, body)) h k =
    closed (cut_text (txt "</script>") body) (cut_text-IsFound (txt "</script>") body)
  where
    closed :
        (o : Option (Text × Text))
        → IsFound (txt "</script>") body o
        → IsNext s
            (elim o [ none ↦ none | some (content, later) ↦ some (open_tag, content, later) ])
    closed none m = not_closed h k m
    closed (some (content, later)) m = record {
      before = before;
      tail = tail;
      body = body;
      begins = h;
      tag_ends = k;
      closes = m;
    }

tag_of-IsNext :
    (s : Text) (o : Option (Text × Text)) → IsFound (txt "<script") s o → IsNext s (tag_of o)
tag_of-IsNext s none h = no_tag h
tag_of-IsNext s (some (before, tail)) h =
    script_content-IsNext s before tail (cut b'>' (txt "<script" ++ tail)) h
      (cut-IsFound b'>' (txt "<script" ++ tail))

next_script-IsNext : (s : Text) → IsNext s (next_script s)
unfolding next_script
next_script-IsNext s =
    tag_of-IsNext s (cut_text (txt "<script") s) (cut_text-IsFound (txt "<script") s)

module _ (codec : ShellCodec) where
  -- The tokens of the inline scripts of a text, from its first script on.
  pub data IsScan : Text → List Text → Type 0 where
    ended : {s : Text} → IsDone s → IsScan s []
    external :
        {s open_tag content later : Text} {hashes : List Text}
        → IsScript s open_tag content later
        → contains open_tag (txt "src=") ≡ true
        → IsScan later hashes
        → IsScan s hashes
    inline :
        {s open_tag content later : Text} {hashes : List Text}
        → IsScript s open_tag content later
        → contains open_tag (txt "src=") ≡ false
        → IsScan later hashes
        → IsScan s ((txt "'sha256-" ++ (encode_std (codec.sha256 content) ++ txt "'")) ∷ hashes)

  hashes_from-IsScan : (fuel : ℕ) (s : Text) → length s < fuel → IsScan s (hashes_from codec fuel s)
  unfolding hashes_from hash_token
  hashes_from-IsScan zero s h = absurd (omega arith)
  hashes_from-IsScan (suc fuel) s h = elim (Option-cases (next_script s)) [
    | inl e ↦ rw (e, hashes_from) (ended (subst (IsNext s) e (next_script-IsNext s)))
    | inr ((open_tag, content, rest), e) ↦
        let k : length rest < length s = subst (IsShorter (length s)) e (next_script-IsShorter s) in
        let script : IsScript s open_tag content rest = subst (IsNext s) e (next_script-IsNext s) in
        elim (Bool-cases (contains open_tag (txt "src="))) [
          | inl src ↦
              rw (e, hashes_from, src)
                (external script src (hashes_from-IsScan fuel rest (omega arith)))
          | inr src ↦
              rw (e, hashes_from, src)
                (inline script src (hashes_from-IsScan fuel rest (omega arith)))
        ]
  ]

  -- For every text, the loop ends with the tokens of its inline scripts in their order. A script begins at
  -- the first "<script"; its opening tag ends at the first ">" from there on, and its content at the first
  -- "</script>" behind that; the next one is searched for behind it. The token is "'sha256-", the padded base64
  -- of the content's hash and a quote. A script whose opening tag holds "src=" has none, and the loop stops
  -- where no complete script is left.
  pub inline_script_hashes-IsScan : (html : Text) → IsScan html (inline_script_hashes codec html)
  unfolding inline_script_hashes
  inline_script_hashes-IsScan html = hashes_from-IsScan (suc (length html)) html (omega arith)
