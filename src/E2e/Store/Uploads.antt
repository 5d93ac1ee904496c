-- ===== src/E2e/Store/Uploads.antt =====
-- What an upload changes: a listing of its folder afterwards shows the old entries and then the new one.
use atrium_core.Base.{
  ◌≡◌, refl, ap, ◌∙◌, Bool, true, false, not, ◌&&◌, Option, none, some, List, [], ◌∷◌, ◌++◌, Text,
  txt, ◌==◌, ==_iff, lookup, Bool-cases, Option-cases, inl, inr, is_empty, if◌then◌else◌, ℤ,
}
use atrium_core.Strings.{split}
use atrium_core.Http.{Request, Out, path_value, header_get, query_get, write_header}
use atrium_core.Provider.{FolderEntry}
use atrium_core.E2e.Tree.{
  Node, Nodes, node, nil, cons, entry, children, child, walk, resolve, update, replace_child, snoc,
  with_child, filter_by_mode, is_shown,
}
use atrium_core.E2e.Store.Limits.{authorized_sound}
use atrium_core.E2e.Reply.{read_all}
use atrium_core.E2e.Store.{
  ShareState, Store, StubCodec, listing, put_share, authorized, claims_from_request, handle_folder,
  handle_upload, store_upload, with_upload, uploaded, upload_name, is_read_only, write_answer,
}

child-replace_child :
    (name : Text) (c n : Node) (cs : Nodes)
    → child name cs ≡ some c
    → ((entry n).name == name) ≡ true
    → child name (replace_child name n cs) ≡ some n
unfolding child replace_child
child-replace_child name c n nil h m = absurd (cc)
child-replace_child name c n (cons d cs) h m = elim (Bool-cases ((entry d).name == name)) [
  | inl e ↦ rw (e, replace_child) (rw (m, child) refl)
  | inr e ↦
      rw (e, replace_child) (rw (e, child) (child-replace_child name c n cs (rw (e, child) at h) m))
]

child-name :
    (name : Text) (c : Node) (cs : Nodes) → child name cs ≡ some c → ((entry c).name == name) ≡ true
unfolding child
child-name name c nil h = absurd (cc)
child-name name c (cons d cs) h = elim (Bool-cases ((entry d).name == name)) [
  | inl e ↦ let same : d ≡ c = cc (rw (e, child) at h) in rw (← same) e
  | inr e ↦ child-name name c cs (rw (e, child) at h)
]

module _ (f : Node → Node) (same_entry : (n : Node) → entry (f n) ≡ entry n) where
  entry-update : (segs : List Text) (n : Node) → entry (update segs f n) ≡ entry n
  unfolding update
  entry-update [] n = same_entry n
  entry-update (seg ∷ segs) (node e t cs) = elim (Bool-cases (is_empty seg)) [
    | inl p ↦ rw (p, update) (entry-update segs (node e t cs))
    | inr p ↦ elim (Option-cases (child seg cs)) [
      | inl q ↦ rw (p, update, q) refl
      | inr (c, q) ↦ rw (p, update, q) refl
    ]
  ]

  -- The walk to a node that was changed finds it changed.
  walk-update :
      (moved b : Bool) (segs : List Text) (root n : Node)
      → walk moved segs root ≡ some (n, b)
      → walk moved segs (update segs f root) ≡ some (f n, b)
  unfolding walk update
  walk-update moved b [] root n h =
      let pair : (root, moved && not (entry root).is_folder) ≡ (n, b) = cc in
      rw (same_entry root) (ap (λ (x : Node × Bool). some (f x.0, x.1)) pair)
  walk-update moved b (seg ∷ segs) (node e t cs) n h = elim (Bool-cases (is_empty seg)) [
    | inl p ↦
        rw (p, update) (rw (p, walk) (walk-update moved b segs (node e t cs) n (rw (p, walk) at h)))
    | inr p ↦ elim (Option-cases (child seg cs)) [
      | inl q ↦ absurd (cc (rw (p, walk, q) at h))
      | inr (c, q) ↦
          let again = child-replace_child seg c (update segs f c) cs q (
            ap (λ (e : FolderEntry). e.name == seg) (entry-update segs c)
            ∙ child-name seg c cs q) in
          rw (p, update, q)
            (rw (p, walk, again) (walk-update true b segs c n (rw (p, walk, q) at h)))
    ]
  ]

filter_by_mode-snoc :
    (mode : ℤ) (cs : Nodes) (n : Node)
    → filter_by_mode mode (snoc cs n)
      ≡ filter_by_mode mode cs ++ (if is_shown mode (entry n) then entry n ∷ [] else [])
unfolding filter_by_mode snoc
filter_by_mode-snoc mode nil n = elim (Bool-cases (is_shown mode (entry n))) [
  | inl e ↦ rw (e, filter_by_mode) refl
  | inr e ↦ rw (e, filter_by_mode) refl
]
filter_by_mode-snoc mode (cons c cs) n = elim (Bool-cases (is_shown mode (entry c))) [
  | inl e ↦ rw (e, filter_by_mode) (ap (λ l. entry c ∷ l) (filter_by_mode-snoc mode cs n))
  | inr e ↦ rw (e, filter_by_mode) (filter_by_mode-snoc mode cs n)
]

lookup-put_share :
    (id : Text) (old st : ShareState) (s : Store)
    → lookup id s ≡ some old
    → lookup id (put_share id st s) ≡ some st
unfolding put_share lookup
lookup-put_share id old st [] h = absurd (cc)
lookup-put_share id old st ((k, v) ∷ s) h = elim (Bool-cases (k == id)) [
  | inl e ↦ rw (e, put_share) (rw e refl)
  | inr e ↦ rw (e, put_share) (rw e (lookup-put_share id old st s (rw e at h)))
]

entry-with_child : (new n : Node) → entry (with_child new n) ≡ entry n
entry-with_child new (node e t cs) = refl

children-with_child : (new n : Node) → children (with_child new n) ≡ snoc (children n) new
children-with_child new (node e t cs) = refl

-- The new entry, where the mode of the share shows it.
abbrev pub shown_upload : ShareState → Request → Text → Node → List FolderEntry
shown_upload st r body target =
    let e = entry (uploaded (upload_name (header_get r (txt "X-Atrium-Filename"))) body target) in
    if is_shown st.share.mode e then e ∷ [] else []

module _ (codec : StubCodec) (s : Store) (r : Request) where
  -- The state of a share after an upload.
  abbrev received : ShareState → Node → Text → ShareState
  received st root body = record st {
    root = some (
        with_upload codec (query_get r (txt "path"))
          (upload_name (header_get r (txt "X-Atrium-Filename"))) body root);
  }

  handle_upload-eq :
      (st : ShareState) (root target : Node) (body : Text) (w : Out)
      → authorized codec s r ≡ some st
      → is_read_only st.share.mode ≡ false
      → read_all r.body ≡ some body
      → st.root ≡ some root
      → resolve (some root) (query_get r (txt "path")) ≡ some (target, false)
      → handle_upload codec s r w
        ≡ (put_share (path_value r (txt "id")) (received st root body) s, write_header 201 w)
  unfolding handle_upload
  handle_upload-eq st root target body w auth writable whole rooted found =
      rw (auth, handle_upload, writable, whole)
        (ap (λ o. store_upload codec st (resolve o (query_get r (txt "path"))) body s r w) rooted
          ∙ rw found (ap (λ o. stored o) rooted))
    where
      stored : Option Node → Store × Out
      stored o = (
        put_share (path_value r (txt "id"))
            (record st {
              root = elim o [
                | none ↦ none
                | some root ↦ some (
                    with_upload codec (query_get r (txt "path"))
                      (upload_name (header_get r (txt "X-Atrium-Filename"))) body root)
              ];
            })
            s,
        write_header 201 w,
      )

  authorized-put_share :
      (st st' : ShareState)
      → authorized codec s r ≡ some st
      → st'.recipient ≡ st.recipient
      → authorized codec (put_share (path_value r (txt "id")) st' s) r ≡ some st'
  unfolding authorized
  authorized-put_share st st' auth same =
      let (there, mine) = authorized_sound codec s r st auth in
      rw (
        lookup-put_share (path_value r (txt "id")) st st' s there,
        authorized,
        (==_iff st'.recipient (claims_from_request codec r).email).1 (same ∙ mine),
      )

  shown_after :
      (st : ShareState) (root target : Node) (body : Text)
      → resolve (some root) (query_get r (txt "path")) ≡ some (target, false)
      → resolve (received st root body).root (query_get r (txt "path"))
        ≡ some (
          with_child
              (uploaded (upload_name (header_get r (txt "X-Atrium-Filename"))) body target)
              target,
          false,
        )
  unfolding resolve
  shown_after st root target body found =
      walk-update
        (λ folder.
          with_child (uploaded (upload_name (header_get r (txt "X-Atrium-Filename"))) body folder)
            folder)
        (λ n. entry-with_child _ n) false false (split b'/' (query_get r (txt "path"))) root target
        found

  -- After an upload that is accepted, a listing of the same folder by the same recipient shows the
  -- entries that it showed before and then the new one, which is left out in a drop box.
  pub handle_upload-folder :
      (st : ShareState) (root target : Node) (body : Text) (w w' : Out)
      → authorized codec s r ≡ some st
      → is_read_only st.share.mode ≡ false
      → read_all r.body ≡ some body
      → st.root ≡ some root
      → resolve (some root) (query_get r (txt "path")) ≡ some (target, false)
      → handle_folder codec (handle_upload codec s r w).0 r w' ≡ (
        (handle_upload codec s r w).0,
        write_answer codec
            (listing (record {
              is_file = false;
              entries =
                  filter_by_mode st.share.mode (children target) ++ shown_upload st r body target;
              entry = none;
            }))
            w',
      )
  unfolding handle_folder
  handle_upload-folder st root target body w w' auth writable whole rooted found =
      let new = uploaded (upload_name (header_get r (txt "X-Atrium-Filename"))) body target in
      rw (handle_upload-eq st root target body w auth writable whole rooted found) (
        rw (authorized-put_share st (received st root body) auth refl, handle_folder)
          (rw (shown_after st root target body found) (
            ap
              (λ l. (
                put_share (path_value r (txt "id")) (received st root body) s,
                write_answer codec (listing (record { is_file = false; entries = l; entry = none }))
                    w',
              ))
              (ap (filter_by_mode st.share.mode) (children-with_child new target)
                ∙ filter_by_mode-snoc st.share.mode (children target) new))))
