-- ===== src/Wifi/Pmksa/Reachable.antt =====
-- What holds of every cache that the operations make.
use shuli.Base.{ℕ, ◌≡◌, false, List, [], ltb, arith, retain, Option-cases, inl, inr}
use shuli.Base.Vec.{position, swap_remove, count-position, count-retain, any-count, position-none}
use shuli.Wifi.Pmksa.{
  SecurityType, PmksaEntry, matches, remove_expired, insert, lookup, lookup_past_reauth, contains,
  invalidate, remove_ssid,
}
use shuli.Wifi.Pmksa.Bounds.{
  IsCache, remove_expired-IsCache, insert-IsCache, invalidate-IsCache, remove_ssid-IsCache,
}

-- The caches that the operations make of an empty one.
pub data Reaches : List PmksaEntry → Type 0 where
  empty : Reaches []
  inserted :
      (now : ℕ) (entry : PmksaEntry) {entries : List PmksaEntry}
      → Reaches entries
      → Reaches (insert now entry entries)
  looked_up :
      (ssid bssid : List ℕ) (security : SecurityType) (expiry_now now : ℕ)
      {entries : List PmksaEntry}
      → Reaches entries
      → Reaches (lookup ssid bssid security expiry_now now entries).1
  looked_up_past_reauth :
      (ssid bssid : List ℕ) (security : SecurityType) (expiry_now now : ℕ)
      {entries : List PmksaEntry}
      → Reaches entries
      → Reaches (lookup_past_reauth ssid bssid security expiry_now now entries).1
  searched :
      (ssid bssid : List ℕ) (security : SecurityType) (now : ℕ) {entries : List PmksaEntry}
      → Reaches entries
      → Reaches (contains ssid bssid security now entries).1
  invalidated :
      (ssid bssid : List ℕ) (security : SecurityType) {entries : List PmksaEntry}
      → Reaches entries
      → Reaches (invalidate ssid bssid security entries).1
  ssid_removed :
      (ssid : List ℕ) {entries : List PmksaEntry}
      → Reaches entries
      → Reaches (remove_ssid ssid entries).1
  cleaned :
      (now : ℕ) {entries : List PmksaEntry} → Reaches entries → Reaches (remove_expired now entries)

-- Every cache that the operations make of an empty one has at most 32 entries, and at most one of
-- an SSID, a BSSID and a security type.
pub Reaches-IsCache : (entries : List PmksaEntry) → Reaches entries → IsCache entries
unfolding lookup lookup_past_reauth contains
Reaches-IsCache _ empty = record {
  bounded = omega arith;
  single = λ ssid bssid security. omega arith;
}
Reaches-IsCache _ (inserted now entry r) = insert-IsCache now entry _ (Reaches-IsCache _ r)
Reaches-IsCache _ (looked_up ssid bssid security expiry_now now r) =
    remove_expired-IsCache expiry_now _ (Reaches-IsCache _ r)
Reaches-IsCache _ (looked_up_past_reauth ssid bssid security expiry_now now r) =
    remove_expired-IsCache expiry_now _ (Reaches-IsCache _ r)
Reaches-IsCache _ (searched ssid bssid security now r) =
    remove_expired-IsCache now _ (Reaches-IsCache _ r)
Reaches-IsCache _ (invalidated ssid bssid security r) =
    invalidate-IsCache ssid bssid security _ (Reaches-IsCache _ r)
Reaches-IsCache _ (ssid_removed ssid r) = remove_ssid-IsCache ssid _ (Reaches-IsCache _ r)
Reaches-IsCache _ (cleaned now r) = remove_expired-IsCache now _ (Reaches-IsCache _ r)

-- Of a cache with one entry of a key at most, `invalidate` leaves none of that key.
pub contains-invalidate :
    (ssid bssid : List ℕ) (security : SecurityType) (now : ℕ) (entries : List PmksaEntry)
    → IsCache entries
    → (contains ssid bssid security now (invalidate ssid bssid security entries).1).0 ≡ false
unfolding contains invalidate remove_expired
contains-invalidate ssid bssid security now entries w =
    let p = matches ssid bssid security in
    elim (Option-cases (position p entries)) [
      | inl nothing ↦
          rw (invalidate, nothing)
            (any-count p (retain (λ e. ltb now e.expires) entries) (
              omega (
                arith,
                count-retain p (λ e. ltb now e.expires) entries,
                position-none p entries nothing,
              )))
      | inr (pos, found) ↦
          rw (invalidate, found)
            (any-count p (retain (λ e. ltb now e.expires) (swap_remove pos entries)) (
              omega (
                arith,
                count-retain p (λ e. ltb now e.expires) (swap_remove pos entries),
                count-position p entries pos found,
                w.single ssid bssid security,
              )))
    ]
