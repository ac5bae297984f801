-- ===== src/Wifi/Pmksa/Lifetime.antt =====
-- What the cache tells a driver of an entry's lifetime.
use shuli.Base.{
  Bool, some, ℕ, ◌+◌, ◌-◌, ◌*◌, ◌/◌, ◌^◌, ◌≤◌, ◌<◌, ◌≡◌, refl, arith, List, true, false,
  if◌then◌else◌, ◌==◌,
}
use shuli.Wifi.Pmksa.Lookup.{lookup-insert}
use shuli.Wifi.Pmksa.{
  lookup, insert, from_secs, SecurityType, MicAlg, PmksaEntry, new, remaining_lifetime_secs,
  remaining_reauth_percent, secs_until, clamp,
}

clamp-bounds : (n low high : ℕ) → low ≤ high → (low ≤ clamp n low high) × (clamp n low high ≤ high)
clamp-bounds n low high h = ground arith

percent-bounds :
    (ended : Bool) (n : ℕ)
    → (1 ≤ (if ended then 1 else clamp n 1 100)) × ((if ended then 1 else clamp n 1 100) ≤ 100)
percent-bounds true n = (omega arith, omega arith)
percent-bounds false n = clamp-bounds n 1 100 (omega arith)

-- Whatever the clock says, the kernel gets a lifetime that is not 0 and fits a u32, and a percentage
-- from 1 to 100.
pub remaining-bounds :
    (now : ℕ) (e : PmksaEntry)
    → (1 ≤ remaining_lifetime_secs now e)
      × (remaining_lifetime_secs now e < 2 ^ 32)
      × (1 ≤ remaining_reauth_percent now e)
      × (remaining_reauth_percent now e ≤ 100)
unfolding remaining_lifetime_secs remaining_reauth_percent
remaining-bounds now e =
    let (a, b) = clamp-bounds (secs_until e.expires now) 1 (2 ^ 32 - 1) (omega arith) in
    let (p, q) =
      percent-bounds (secs_until e.expires now == 0)
        (secs_until e.reauth_at now * 100 / secs_until e.expires now) in
    (a, omega (arith, b), p, q)

module _ (t : ℕ) (ssid bssid : List ℕ) (security : SecurityType) (pmkid pmk : List ℕ)
    (mic_alg : MicAlg) where
  abbrev fresh : PmksaEntry
  fresh = new t ssid bssid security pmkid pmk mic_alg

  -- A new entry is reported with a lifetime of 43200 seconds and a threshold at 70 percent of it.
  pub remaining-new :
      (remaining_lifetime_secs t fresh ≡ 43200) × (remaining_reauth_percent t fresh ≡ 70)
  unfolding new remaining_lifetime_secs remaining_reauth_percent
  remaining-new =
      let life : secs_until (t + from_secs 43200) t ≡ 43200 = omega arith in
      let reauth : secs_until (t + from_secs 30240) t ≡ 30240 = omega arith in
      (rw life refl, rw (life, reauth) refl)

  -- An entry that is inserted when it is made is found under its key by every lookup in the next
  -- 30240 seconds.
  pub lookup-insert_new :
      (expiry_elapsed elapsed : ℕ) (entries : List PmksaEntry)
      → expiry_elapsed ≤ elapsed
      → elapsed < from_secs 30240
      → (lookup ssid bssid security (t + expiry_elapsed) (t + elapsed) (insert t fresh entries)).0
        ≡ some fresh
  unfolding new
  lookup-insert_new expiry_elapsed elapsed entries h k =
      lookup-insert t (t + expiry_elapsed) (t + elapsed) fresh entries (omega arith) (omega arith)
