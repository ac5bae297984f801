-- ===== src/Wifi/Pmksa/Lookup.antt =====
-- What a lookup finds: an entry of its key that may still be used, and the one inserted last.
use shuli.Base.{
  ℕ, ◌<◌, ◌≤◌, ◌≡◌, true, not, some, List, arith, Memᴰ, retain, find-eq-some, Option-cases, inl,
  inr, ltb, leb, ◌&&◌, bytes_eq_refl,
}
use shuli.Base.Vec.{replace_first, find-replace_first, find-push, retain-mem, replace_first-none}
use shuli.Wifi.Pmksa.{
  SecurityType, PmksaEntry, matches, past_reauth_threshold, remove_expired, evict, insert, lookup,
  lookup_past_reauth,
}
use shuli.Wifi.Pmksa.Bounds.{count-evict}

-- An entry of the cache with the key asked for, whose lifetime runs.
pub record Found (ssid bssid : List ℕ) (security : SecurityType) (now : ℕ)
    (entries : List PmksaEntry) (e : PmksaEntry) : Type 0 where
  pub held : Memᴰ e entries
  pub fits : matches ssid bssid security e ≡ true
  pub alive : now < e.expires

module _ (ssid bssid : List ℕ) (security : SecurityType) (expiry_now now : ℕ)
    (entries : List PmksaEntry) (e : PmksaEntry) where
  -- A lookup gives an entry of the cache with its key, which is neither expired nor past its
  -- reauthentication threshold.
  pub lookup-Found :
      (lookup ssid bssid security expiry_now now entries).0 ≡ some e
      → Found ssid bssid security expiry_now entries e × (now < e.reauth_at)
  unfolding lookup remove_expired past_reauth_threshold
  lookup-Found h =
      let (held, tests) =
        find-eq-some (λ x. matches ssid bssid security x && not (leb x.reauth_at now))
          (retain (λ x. ltb expiry_now x.expires) entries) h in
      let (mem, alive) = retain-mem (λ x. ltb expiry_now x.expires) entries held in
      (record { held = mem; fits = ground arith; alive = ground arith }, ground arith)

  -- The other lookup gives an entry with its key that is not expired, and is past its threshold.
  pub lookup_past_reauth-Found :
      (lookup_past_reauth ssid bssid security expiry_now now entries).0 ≡ some e
      → Found ssid bssid security expiry_now entries e × (e.reauth_at ≤ now)
  unfolding lookup_past_reauth remove_expired past_reauth_threshold
  lookup_past_reauth-Found h =
      let (held, tests) =
        find-eq-some (λ x. matches ssid bssid security x && leb x.reauth_at now)
          (retain (λ x. ltb expiry_now x.expires) entries) h in
      let (mem, alive) = retain-mem (λ x. ltb expiry_now x.expires) entries held in
      (record { held = mem; fits = ground arith; alive = ground arith }, ground arith)

matches-own : (e : PmksaEntry) → matches e.ssid e.bssid e.security e ≡ true
unfolding matches
matches-own e = ground (arith, bytes_eq_refl e.ssid, bytes_eq_refl e.bssid)

-- An inserted entry is found under its key until it expires or passes its threshold, whatever the
-- cache held.
pub lookup-insert :
    (inserted expiry_now now : ℕ) (e : PmksaEntry) (entries : List PmksaEntry)
    → expiry_now < e.expires
    → now < e.reauth_at
    → (lookup e.ssid e.bssid e.security expiry_now now (insert inserted e entries)).0 ≡ some e
unfolding lookup past_reauth_threshold remove_expired insert
lookup-insert inserted expiry_now now e entries alive fresh =
    let p = matches e.ssid e.bssid e.security in
    let live = remove_expired inserted entries in
    let usable : not (leb e.reauth_at now) ≡ true = ground arith in
    let unexpired : ltb expiry_now e.expires ≡ true = ground arith in
    elim (Option-cases (replace_first p e live)) [
      | inl nothing ↦
          rw (insert, nothing)
            (find-push p (λ x. not (leb x.reauth_at now)) (λ x. ltb expiry_now x.expires) e
              (evict live) (matches-own e) usable unexpired
              (omega (arith, count-evict p live, replace_first-none p e live nothing)))
      | inr (ys, found) ↦
          rw (insert, found)
            (find-replace_first p (λ x. not (leb x.reauth_at now)) (λ x. ltb expiry_now x.expires) e
              live ys (matches-own e) usable unexpired found)
    ]
