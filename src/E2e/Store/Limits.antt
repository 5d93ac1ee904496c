-- ===== src/E2e/Store/Limits.antt =====
-- The invariant of the stub provider's store, over every run.
use atrium_core.Base.{
  ◌≡◌, refl, ap, ◌∙◌, Bool, true, false, Option, none, some, List, [], ◌∷◌, Text, txt, ◌==◌, ==_iff,
  lookup, All, ℤ, pos, lebℤ, ◌+ℤ◌, arith, Bool-cases, Option-cases, inl, inr,
}
use atrium_core.Http.{Request, Out, fresh, path_value}
use atrium_core.Provider.{Share}
use atrium_core.E2e.Tree.{Node}
use atrium_core.E2e.Store.{
  ShareState, Store, StubCodec, put_share, is_spent, counted, authorized, claims_from_request,
  handle_health, handle_shares, handle_content, handle_folder, handle_folder_file, handle_upload,
  content_of_share, show_folder, send_node, receive, store_upload,
}
use atrium_core.E2e.Store.Seed.{seed}
use atrium_core.E2e.Store.Routes.{
  StubRoute, health, shares, reseed, missing, content, folder, upload, folder_file, wrong_method,
  serve, stub_route, with_id, with_ids, Step, request, Reach, start, next,
}

-- What holds of every share: it stands under its own ID, names its recipient, and has been downloaded
-- no more often than its limit allows.
abbrev pub IsWithinLimit : Share → Type 0
IsWithinLimit s =
    (lebℤ (pos 0) s.download_count ≡ true)
    × ((m : ℤ) → s.max_downloads ≡ some m → lebℤ s.download_count m ≡ true)

pub record IsKept (id : Text) (st : ShareState) : Type 0 where
  pub own_id : st.share.id ≡ id
  pub own_recipient : st.share.recipient_email ≡ st.recipient
  pub within_limit : IsWithinLimit st.share

abbrev pub AllShares : (Text → ShareState → Type 0) → Store → Type 0
AllShares P s = All (λ kv. P kv.0 kv.1) s

abbrev pub ids : Store → List Text
ids [] = []
ids ((k, v) ∷ s) = k ∷ ids s

pub put_share-AllShares :
    (P : Text → ShareState → Type 0) (id : Text) (st : ShareState) (s : Store)
    → AllShares P s
    → P id st
    → AllShares P (put_share id st s)
unfolding put_share
put_share-AllShares P id st [] h p = tt
put_share-AllShares P id st ((k, v) ∷ s) (q, h) p = elim (Bool-cases (k == id)) [
  | inl e ↦ rw (e, put_share) (rw ((==_iff k id).0 e) p, h)
  | inr e ↦ rw (e, put_share) (q, put_share-AllShares P id st s h p)
]

pub lookup-AllShares :
    (P : Text → ShareState → Type 0) (id : Text) (st : ShareState) (s : Store)
    → AllShares P s
    → lookup id s ≡ some st
    → P id st
unfolding lookup
lookup-AllShares P id st [] h e = absurd (cc)
lookup-AllShares P id st ((k, v) ∷ s) (q, h) e = elim (Bool-cases (k == id)) [
  | inl m ↦ let same : v ≡ st = ground arith in rw (← same, ← (==_iff k id).0 m) q
  | inr m ↦ lookup-AllShares P id st s h (rw m at e)
]

pub ids-put_share : (id : Text) (st : ShareState) (s : Store) → ids (put_share id st s) ≡ ids s
unfolding put_share
ids-put_share id st [] = refl
ids-put_share id st ((k, v) ∷ s) = elim (Bool-cases (k == id)) [
  | inl e ↦ rw (e, put_share) refl
  | inr e ↦ rw (e, put_share) (ap (λ l. k ∷ l) (ids-put_share id st s))
]

-- The IDs of the fixture.
abbrev pub fixture_ids : List Text
fixture_ids =
    txt "file-basic"
    ∷ txt "file-limited"
    ∷ txt "folder-readall"
    ∷ txt "folder-readonly"
    ∷ txt "folder-readown"
    ∷ txt "folder-dropzone"
    ∷ txt "file-other"
    ∷ []

pub record IsSound (s : Store) : Type 0 where
  pub same_ids : ids s ≡ fixture_ids
  pub kept : AllShares IsKept s

put_share-IsSound :
    (id : Text) (st : ShareState) (s : Store)
    → IsSound s
    → IsKept id st
    → IsSound (put_share id st s)
put_share-IsSound id st s h k = record {
  same_ids = ids-put_share id st s ∙ h.same_ids;
  kept = put_share-AllShares IsKept id st s h.kept k;
}

seed-IsSound : (now soon : Text) → IsSound (seed now soon)
unfolding seed
seed-IsSound now soon = record {
  same_ids = refl;
  kept = (
    record { own_id = refl; own_recipient = refl; within_limit = unlimited },
    (
      record { own_id = refl; own_recipient = refl; within_limit = (refl, λ m e. ground arith) },
      (
        record { own_id = refl; own_recipient = refl; within_limit = unlimited },
        (
          record { own_id = refl; own_recipient = refl; within_limit = unlimited },
          (
            record { own_id = refl; own_recipient = refl; within_limit = unlimited },
            (
              record { own_id = refl; own_recipient = refl; within_limit = unlimited },
              (record { own_id = refl; own_recipient = refl; within_limit = unlimited }, tt),
            ),
          ),
        ),
      ),
    ),
  );
}
  where
    unlimited :
        (◌≡◌ {A = Bool} true true)
        × ((m : ℤ) → ◌≡◌ {A = Option ℤ} none (some m) → lebℤ (pos 0) m ≡ true)
    unlimited = (refl, λ m e. absurd (cc))

counted_not_negative :
    (s : Share) → IsWithinLimit s → lebℤ (pos 0) (s.download_count +ℤ pos 1) ≡ true
counted_not_negative s h = ground (arith, h.0)

counted_within : (count m : ℤ) → lebℤ m count ≡ false → lebℤ (count +ℤ pos 1) m ≡ true
counted_within count m h = ground arith

not_spent :
    (s : Share) (m : ℤ)
    → is_spent s ≡ false
    → s.max_downloads ≡ some m
    → lebℤ m s.download_count ≡ false
not_spent s m h e = ground arith

counted-IsKept :
    (id : Text) (st : ShareState)
    → is_spent st.share ≡ false
    → IsKept id st
    → IsKept id (counted st)
counted-IsKept id st h k = record {
  own_id = k.own_id;
  own_recipient = k.own_recipient;
  within_limit = (
    counted_not_negative st.share k.within_limit,
    λ m e. counted_within st.share.download_count m (not_spent st.share m h e),
  );
}

module _ (codec : StubCodec) (s : Store) (r : Request) where
  pub authorized_sound :
      (st : ShareState)
      → authorized codec s r ≡ some st
      → (lookup (path_value r (txt "id")) s ≡ some st)
        × (st.recipient ≡ (claims_from_request codec r).email)
  unfolding authorized
  authorized_sound st h = elim (Option-cases (lookup (path_value r (txt "id")) s)) [
    | inl e ↦ absurd (cc (rw (e, authorized) at h))
    | inr (st', e) ↦ elim (Bool-cases (st'.recipient == (claims_from_request codec r).email)) [
      | inl m ↦
          let same : st' ≡ st = cc (rw (e, authorized, m) at h) in
          (rw (← same) e, rw (← same) ((==_iff st'.recipient _).0 m))
      | inr m ↦ absurd (cc (rw (e, authorized, m) at h))
    ]
  ]

  keeps_limit :
      (st : ShareState)
      → IsSound s
      → authorized codec s r ≡ some st
      → IsKept (path_value r (txt "id")) st
  keeps_limit st h e =
      lookup-AllShares IsKept (path_value r (txt "id")) st s h.kept (authorized_sound st e).0

  content_of_share-IsSound :
      (st : ShareState) (w : Out)
      → IsSound s
      → IsKept (path_value r (txt "id")) st
      → IsSound (content_of_share codec st s r w).0
  content_of_share-IsSound st w h k = elim (Bool-cases (is_spent st.share)) [
    | inl e ↦ rw e h
    | inr e ↦ rw e (put_share-IsSound _ (counted st) s h (counted-IsKept _ st e k))
  ]

  handle_content-IsSound : (w : Out) → IsSound s → IsSound (handle_content codec s r w).0
  unfolding handle_content
  handle_content-IsSound w h = elim (Option-cases (authorized codec s r)) [
    | inl e ↦ rw (e, handle_content) h
    | inr (st, e) ↦ rw (e, handle_content) (content_of_share-IsSound st w h (keeps_limit st h e))
  ]

  show_folder-same :
      (st : ShareState) (found : Option (Node × Bool)) (w : Out)
      → (show_folder codec st found s w).0 ≡ s
  show_folder-same st none w = refl
  show_folder-same st (some (n, true)) w = refl
  show_folder-same st (some (n, false)) w = refl

  handle_folder-same : (w : Out) → (handle_folder codec s r w).0 ≡ s
  unfolding handle_folder
  handle_folder-same w = elim (Option-cases (authorized codec s r)) [
    | inl e ↦ rw (e, handle_folder) refl
    | inr (st, e) ↦ rw (e, handle_folder) (show_folder-same st _ w)
  ]

  send_node-same : (found : Option Node) (w : Out) → (send_node codec found s w).0 ≡ s
  send_node-same none w = refl
  send_node-same (some n) w = refl

  handle_folder_file-same : (w : Out) → (handle_folder_file codec s r w).0 ≡ s
  unfolding handle_folder_file
  handle_folder_file-same w = elim (Option-cases (authorized codec s r)) [
    | inl e ↦ rw (e, handle_folder_file) refl
    | inr (st, e) ↦ rw (e, handle_folder_file) (send_node-same _ w)
  ]

  store_upload-IsSound :
      (st : ShareState) (found : Option (Node × Bool)) (body : Text) (w : Out)
      → IsSound s
      → IsKept (path_value r (txt "id")) st
      → IsSound (store_upload codec st found body s r w).0
  store_upload-IsSound st none body w h k = h
  store_upload-IsSound st (some (n, true)) body w h k = h
  store_upload-IsSound st (some (n, false)) body w h k =
      put_share-IsSound _ _ s h (record {
        own_id = k.own_id;
        own_recipient = k.own_recipient;
        within_limit = k.within_limit;
      })

  receive-IsSound :
      (st : ShareState) (b : Bool) (o : Option Text) (w : Out)
      → IsSound s
      → IsKept (path_value r (txt "id")) st
      → IsSound (receive codec st b o s r w).0
  receive-IsSound st true o w h k = h
  receive-IsSound st false none w h k = h
  receive-IsSound st false (some body) w h k = store_upload-IsSound st _ body w h k

  handle_upload-IsSound : (w : Out) → IsSound s → IsSound (handle_upload codec s r w).0
  unfolding handle_upload
  handle_upload-IsSound w h = elim (Option-cases (authorized codec s r)) [
    | inl e ↦ rw (e, handle_upload) h
    | inr (st, e) ↦ rw (e, handle_upload) (receive-IsSound st _ _ w h (keeps_limit st h e))
  ]

module _ (codec : StubCodec) where
  serve-IsSound :
      (now soon : Text) (route : StubRoute) (s : Store) (r : Request) (w : Out)
      → IsSound s
      → IsSound (serve codec now soon route s r w).0
  unfolding serve handle_health handle_shares
  serve-IsSound now soon health s r w h = h
  serve-IsSound now soon shares s r w h = h
  serve-IsSound now soon reseed s r w h = seed-IsSound now soon
  serve-IsSound now soon missing s r w h = h
  serve-IsSound now soon (wrong_method allow) s r w h = h
  serve-IsSound now soon (content id) s r w h = handle_content-IsSound codec s (with_id id r) w h
  serve-IsSound now soon (folder id) s r w h = rw (handle_folder-same codec s (with_id id r) w) h
  serve-IsSound now soon (folder_file id file_id) s r w h =
      rw (handle_folder_file-same codec s (with_ids id file_id r) w) h
  serve-IsSound now soon (upload id) s r w h = handle_upload-IsSound codec s (with_id id r) w h

  Step-IsSound : {s t : Store} → Step codec s t → IsSound s → IsSound t
  Step-IsSound {s} (request now soon segments r) h =
      serve-IsSound now soon (stub_route r.method segments) s r fresh h

  -- Whatever requests the stand-in receives, and in whatever order, its store keeps the fixture's IDs;
  -- every share stands under its own ID and names its recipient, and no share has been downloaded more
  -- often than its limit allows.
  pub Reach-IsSound : {s : Store} → Reach codec s → IsSound s
  Reach-IsSound (start now soon) = seed-IsSound now soon
  Reach-IsSound (next r st) = Step-IsSound st (Reach-IsSound r)
