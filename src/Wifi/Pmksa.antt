-- ===== src/Wifi/Pmksa.antt =====
-- wifi/pmksa.rs: the cache of pairwise master keys. An `Instant` is the nanoseconds since some
-- origin, and every call of `Instant::now()` is an argument, in the order of the calls.
pub mod Bounds
pub mod Reachable
pub mod Lookup
pub mod Lifetime
use shuli.Base.{
  ℕ, suc, ◌+◌, ◌-◌, ◌*◌, ◌/◌, ◌^◌, min, Bool, true, false, not, Option, none, some, List, [], ◌∷◌,
  ◌++◌, length, ltb, leb, ◌&&◌, ◌==◌, if◌then◌else◌, any, find, retain, bytes_eq, get_elem?,
}
use shuli.Base.Vec.{position, replace_first, swap_remove}

-- `SecurityType` of wifi/scan.rs and `MicAlg` of wifi/crypto/handshake4.rs.
pub data SecurityType : Type 0 where
  open_network wpa2_psk wpa2_psk_sha256 wpa2_ent wpa2_ent_sha256 owe sae : SecurityType
  ft_psk ft_sae sae_ext_key ft_sae_ext_key unsupported : SecurityType

pub data MicAlg : Type 0 where
  aes_cmac hmac_sha256 hmac_sha1 : MicAlg

-- The discriminant, which the derived `==` compares.
unfoldable pub security_index : SecurityType → ℕ
security_index open_network = 0
security_index wpa2_psk = 1
security_index wpa2_psk_sha256 = 2
security_index wpa2_ent = 3
security_index wpa2_ent_sha256 = 4
security_index owe = 5
security_index sae = 6
security_index ft_psk = 7
security_index ft_sae = 8
security_index sae_ext_key = 9
security_index ft_sae_ext_key = 10
security_index unsupported = 11

abbrev pub pmk_lifetime_secs : ℕ
pmk_lifetime_secs = 43200

abbrev pub pmk_reauth_threshold_percent : ℕ
pmk_reauth_threshold_percent = 70

abbrev pub max_entries : ℕ
max_entries = 32

-- `Duration::from_secs`
abbrev pub from_secs : ℕ → ℕ
from_secs secs = secs * 1000000000

pub record PmksaEntry : Type 0 where
  pub ssid : List ℕ
  pub bssid : List ℕ
  pub security : SecurityType
  pub pmkid : List ℕ
  pub pmk : List ℕ
  pub mic_alg : MicAlg
  pub expires : ℕ
  pub reauth_at : ℕ

unfoldable pub new : ℕ → List ℕ → List ℕ → SecurityType → List ℕ → List ℕ → MicAlg → PmksaEntry
new established ssid bssid security pmkid pmk mic_alg = record {
  ssid = ssid;
  bssid = bssid;
  security = security;
  pmkid = pmkid;
  pmk = pmk;
  mic_alg = mic_alg;
  expires = established + from_secs pmk_lifetime_secs;
  reauth_at = established + from_secs (pmk_lifetime_secs * pmk_reauth_threshold_percent / 100);
}

unfoldable pub matches : List ℕ → List ℕ → SecurityType → PmksaEntry → Bool
matches ssid bssid security e =
    bytes_eq e.ssid ssid
    && (bytes_eq e.bssid bssid && security_index e.security == security_index security)

unfoldable pub past_reauth_threshold : ℕ → PmksaEntry → Bool
past_reauth_threshold now e = leb e.reauth_at now

-- `saturating_duration_since(now).as_secs()`
abbrev pub secs_until : ℕ → ℕ → ℕ
secs_until instant now = (instant - now) / 1000000000

abbrev pub clamp : ℕ → ℕ → ℕ → ℕ
clamp n low high = if ltb n low then low else if ltb high n then high else n

unfoldable pub remaining_lifetime_secs : ℕ → PmksaEntry → ℕ
remaining_lifetime_secs now e = clamp (secs_until e.expires now) 1 (2 ^ 32 - 1)

unfoldable pub remaining_reauth_percent : ℕ → PmksaEntry → ℕ
remaining_reauth_percent now e =
    let lifetime = secs_until e.expires now in
    if lifetime == 0 then 1 else clamp (secs_until e.reauth_at now * 100 / lifetime) 1 100

-- The cache is its entries.
unfoldable pub remove_expired : ℕ → List PmksaEntry → List PmksaEntry
remove_expired now entries = retain (λ e. ltb now e.expires) entries

-- The loop over `enumerate().skip(1)`, from an index on, with the oldest entry so far.
unfoldable pub oldest_loop : ℕ → ℕ → ℕ → List PmksaEntry → ℕ
oldest_loop i oldest expires [] = oldest
oldest_loop i oldest expires (e ∷ rest) =
    let this = oldest_loop (suc i) i e.expires rest in
    let that = oldest_loop (suc i) oldest expires rest in
    if ltb e.expires expires then this else that

unfoldable pub oldest_entry : List PmksaEntry → ℕ
oldest_entry [] = 0
oldest_entry (e ∷ rest) = oldest_loop 1 0 e.expires rest

unfoldable pub evict : List PmksaEntry → List PmksaEntry
evict entries =
    if length entries == max_entries then swap_remove (oldest_entry entries) entries else entries

unfoldable pub insert : ℕ → PmksaEntry → List PmksaEntry → List PmksaEntry
insert now entry entries =
    let live = remove_expired now entries in
    elim (replace_first (matches entry.ssid entry.bssid entry.security) entry live) [
      | some replaced ↦ replaced
      | none ↦ evict live ++ (entry ∷ [])
    ]

module _ (ssid bssid : List ℕ) (security : SecurityType) where
  -- `remove_expired` reads the clock first.
  unfoldable pub lookup : ℕ → ℕ → List PmksaEntry → Option PmksaEntry × List PmksaEntry
  lookup expiry_now now entries =
      let live = remove_expired expiry_now entries in
      (find (λ e. matches ssid bssid security e && not (past_reauth_threshold now e)) live, live)

  unfoldable pub lookup_past_reauth : ℕ → ℕ → List PmksaEntry → Option PmksaEntry × List PmksaEntry
  lookup_past_reauth expiry_now now entries =
      let live = remove_expired expiry_now entries in
      (find (λ e. matches ssid bssid security e && past_reauth_threshold now e) live, live)

  unfoldable pub contains : ℕ → List PmksaEntry → Bool × List PmksaEntry
  contains now entries =
      let live = remove_expired now entries in (any (matches ssid bssid security) live, live)

  unfoldable pub invalidate : List PmksaEntry → Option PmksaEntry × List PmksaEntry
  invalidate entries = elim (position (matches ssid bssid security) entries) [
    | none ↦ (none, entries)
    | some pos ↦ (get_elem? entries pos, swap_remove pos entries)
  ]

-- The entries removed, and those kept.
unfoldable pub remove_ssid : List ℕ → List PmksaEntry → List PmksaEntry × List PmksaEntry
remove_ssid ssid entries =
    (retain (λ e. bytes_eq e.ssid ssid) entries, retain (λ e. not (bytes_eq e.ssid ssid)) entries)
