-- ===== src/Provider/Statuses.antt =====
-- How the statuses of the backend reach the core.
use atrium_core.Base.{ℕ, ◌≡◌, ◌↔◌, ◌⊎◌, ◌≢◌, ◌≤◌, ◌<◌, arith}
use atrium_core.Base.Result.{ok, err}
use atrium_core.Provider.{
  Reply, check_status, map_error_status, forbidden, share_not_found, share_gone, unexpected_status,
}

-- Neither a success nor one of the three statuses with an error of their own.
abbrev pub IsUnexpected : ℕ → Type 0
IsUnexpected s = ((s < 200) ⊎ (300 ≤ s)) × (s ≢ 403) × (s ≢ 404) × (s ≢ 410)

-- A reply is passed on exactly if its status is a success; 403, 404 and 410 become their own errors,
-- and no other status does; a status that is neither is reported as unexpected, and only that.
pub check_status_iff :
    (r : Reply)
    → ((check_status r ≡ ok r) ↔ ((200 ≤ r.status) × (r.status < 300)))
      × ((check_status r ≡ err forbidden) ↔ (r.status ≡ 403))
      × ((check_status r ≡ err share_not_found) ↔ (r.status ≡ 404))
      × ((check_status r ≡ err share_gone) ↔ (r.status ≡ 410))
      × ((check_status r ≡ err (unexpected_status r.status)) ↔ IsUnexpected r.status)
unfolding check_status map_error_status
check_status_iff r = (ground arith, ground arith, ground arith, ground arith, ground arith)
