-- ===== src/E2e/Store/Binding.antt =====
-- Who sees what: a share of somebody else looks like one that is not there.
use atrium_core.Base.{
  ◌≡◌, ◌⊎◌, refl, ◌∙◌, true, false, none, some, [], ◌∷◌, Text, txt, ◌==◌, ==_iff, lookup, get, All,
  Bool-cases, inl, inr,
}
use atrium_core.Http.{Request, Out, error, path_value, header_get}
use atrium_core.Provider.{Share}
use atrium_core.E2e.Store.{
  ShareState, Store, StubCodec, authorized, claims_from_request, handle_content, handle_folder,
  handle_folder_file, handle_upload, list_for,
}
use atrium_core.E2e.Store.Limits.{IsKept, AllShares}
use atrium_core.E2e.Store.Routes.{
  StubRoute, content, folder, upload, folder_file, health, shares, reseed, missing, wrong_method,
  serve, with_id, with_ids,
}

-- There is no share under the ID, or it belongs to another recipient.
abbrev pub IsHidden : Store → Text → Text → Type 0
IsHidden s id email =
    (lookup id s ≡ none)
    ⊎ ((st : ShareState) × ((lookup id s ≡ some st) × ((st.recipient == email) ≡ false)))

-- The routes that name a share.
abbrev pub Names : StubRoute → Text → Type 0
Names (content id) i = id ≡ i
Names (folder id) i = id ≡ i
Names (folder_file id file_id) i = id ≡ i
Names (upload id) i = id ≡ i
Names _ i = ⊥

module _ (codec : StubCodec) (s : Store) where
  pub authorized_hidden :
      (r : Request) (id : Text)
      → path_value r (txt "id") ≡ id
      → IsHidden s id (claims_from_request codec r).email
      → authorized codec s r ≡ none
  unfolding authorized
  authorized_hidden r id p (inl e) = rw (p, authorized, e)
  authorized_hidden r id p (inr (st, (e, m))) = rw (p, authorized, e, m)

  pub authorized_own :
      (r : Request) (id : Text) (st : ShareState)
      → path_value r (txt "id") ≡ id
      → lookup id s ≡ some st
      → (st.recipient == (claims_from_request codec r).email) ≡ true
      → authorized codec s r ≡ some st
  unfolding authorized
  authorized_own r id st p e m = rw (p, authorized, e, m) refl

  id_of-with_id : (id : Text) (r : Request) → path_value (with_id id r) (txt "id") ≡ id
  unfolding path_value get lookup ◌==◌ txt
  id_of-with_id id r = refl

  id_of-with_ids :
      (id file_id : Text) (r : Request) → path_value (with_ids id file_id r) (txt "id") ≡ id
  unfolding path_value get lookup ◌==◌ txt
  id_of-with_ids id file_id r = refl

  -- On every route that names a share, a share of another recipient is answered as one that does not
  -- exist: with 404 and the same text, and nothing changes in the store.
  pub serve-IsHidden :
      (now soon : Text) (route : StubRoute) (r : Request) (w : Out) (id : Text)
      → Names route id
      → IsHidden s id (claims_from_request codec r).email
      → serve codec now soon route s r w ≡ (s, error (txt "not found") 404 w)
  unfolding serve handle_content handle_folder handle_folder_file handle_upload claims_from_request
      header_get
  serve-IsHidden now soon health r w id n h = elim n [ ]
  serve-IsHidden now soon shares r w id n h = elim n [ ]
  serve-IsHidden now soon reseed r w id n h = elim n [ ]
  serve-IsHidden now soon missing r w id n h = elim n [ ]
  serve-IsHidden now soon (wrong_method allow) r w id n h = elim n [ ]
  serve-IsHidden now soon (content i) r w id n h =
      rw (authorized_hidden (with_id i r) id (id_of-with_id i r ∙ n) h, handle_content) refl
  serve-IsHidden now soon (folder i) r w id n h =
      rw (authorized_hidden (with_id i r) id (id_of-with_id i r ∙ n) h, handle_folder) refl
  serve-IsHidden now soon (folder_file i f) r w id n h =
      rw (authorized_hidden (with_ids i f r) id (id_of-with_ids i f r ∙ n) h, handle_folder_file)
        refl
  serve-IsHidden now soon (upload i) r w id n h =
      rw (authorized_hidden (with_id i r) id (id_of-with_id i r ∙ n) h, handle_upload) refl

-- In a sound store, the list for an address holds shares of that recipient only.
pub list_for-own :
    (email : Text) (s : Store)
    → AllShares IsKept s
    → All (λ (sh : Share). sh.recipient_email ≡ email) (list_for email s)
unfolding list_for
list_for-own email [] h = tt
list_for-own email ((k, v) ∷ s) (p, h) = elim (Bool-cases (v.recipient == email)) [
  | inl e ↦
      rw (e, list_for) (p.own_recipient ∙ (==_iff v.recipient email).0 e, list_for-own email s h)
  | inr e ↦ rw (e, list_for) (list_for-own email s h)
]
