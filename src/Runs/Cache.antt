-- ===== src/Runs/Cache.antt =====
-- The PMKSA cache of wifi/pmksa.rs at concrete entries.
use shuli.Base.{ℕ, ◌≡◌, refl, some, none, List, [], ◌∷◌, arith}
use shuli.Wifi.Pmksa.{
  PmksaEntry, sae, wpa2_psk, aes_cmac, new, insert, lookup, lookup_past_reauth, invalidate,
  remove_expired, matches, past_reauth_threshold, evict, security_index,
}
use shuli.Wifi.Pmksa.Bounds.{IsCache}
use shuli.Wifi.Pmksa.Reachable.{Reaches, empty, inserted, invalidated, Reaches-IsCache}
use shuli.Wifi.Pmksa.Lookup.{lookup-insert}

abbrev home : List ℕ
home = 104 ∷ 111 ∷ []

abbrev ap_address : List ℕ
ap_address = 2 ∷ 0 ∷ 0 ∷ 0 ∷ 0 ∷ 1 ∷ []

-- An entry with its times alone: it expires at 100, and its threshold is at 70.
abbrev short_entry : PmksaEntry
short_entry = record {
  ssid = home;
  bssid = ap_address;
  security = sae;
  pmkid = 1 ∷ [];
  pmk = 2 ∷ [];
  mic_alg = aes_cmac;
  expires = 100;
  reauth_at = 70;
}

abbrev one_entry : List PmksaEntry
one_entry = insert 0 short_entry []

one_entry-Reaches : Reaches one_entry
one_entry-Reaches = inserted 0 short_entry empty

Reaches-IsCache_example : IsCache (invalidate home ap_address sae one_entry).1
Reaches-IsCache_example =
    Reaches-IsCache (invalidate home ap_address sae one_entry).1
      (invalidated home ap_address sae one_entry-Reaches)

one_entry-IsCache : IsCache one_entry
one_entry-IsCache = Reaches-IsCache one_entry one_entry-Reaches

lookup-insert_example :
    (lookup home ap_address sae 10 11 (insert 0 short_entry [])).0 ≡ some short_entry
lookup-insert_example = lookup-insert 0 10 11 short_entry [] (omega arith) (omega arith)

-- Past the threshold an entry is found by the other lookup alone, and no key of another security
-- type finds it.
late : (lookup_past_reauth home ap_address sae 80 80 one_entry).0 ≡ some short_entry
unfolding lookup_past_reauth insert remove_expired matches past_reauth_threshold evict
    security_index
late = refl

too_late : (lookup home ap_address sae 80 80 one_entry).0 ≡ none
unfolding lookup insert remove_expired matches past_reauth_threshold evict security_index
too_late = refl

other_type : (lookup home ap_address wpa2_psk 10 10 one_entry).0 ≡ none
unfolding lookup insert remove_expired matches past_reauth_threshold evict security_index
other_type = refl

abbrev fresh_entry : PmksaEntry
fresh_entry = new 5 home ap_address sae (1 ∷ []) (2 ∷ []) aes_cmac
