-- ===== src/Wifi/Pmksa/Bounds.antt =====
-- The operations keep a cache within its maximum of entries, and to one for each network.
use shuli.Base.{
  ℕ, suc, ◌+◌, ◌≤◌, ◌<◌, ◌≡◌, refl, Bool, true, not, List, [], ◌∷◌, ◌++◌, length, ltb, arith,
  Bool-cases, Option-cases, inl, inr, bytes_eq, bytes_eq→eq, ◌==◌, length-append,
}
use shuli.Base.Vec.{
  count, position, replace_first, length-swap_remove, count-swap_remove, count-retain,
  length-retain, count-append, replace_first-none, length-swap_remove_le, count-ext,
  count-replace_first,
}
use shuli.Wifi.Pmksa.{
  SecurityType, PmksaEntry, max_entries, matches, remove_expired, oldest_loop, oldest_entry, evict,
  insert, invalidate, remove_ssid,
}

-- At most 32 entries, and at most one of an SSID, a BSSID and a security type.
pub record IsCache (entries : List PmksaEntry) : Type 0 where
  pub bounded : length entries ≤ max_entries
  pub single :
      (ssid bssid : List ℕ) (security : SecurityType)
      → count (matches ssid bssid security) entries ≤ 1

pub remove_expired-IsCache :
    (now : ℕ) (entries : List PmksaEntry) → IsCache entries → IsCache (remove_expired now entries)
unfolding remove_expired
remove_expired-IsCache now entries w = record {
  bounded = omega (arith, length-retain (λ e. ltb now e.expires) entries, w.bounded);
  single = λ ssid bssid security. omega (
    arith,
    count-retain (matches ssid bssid security) (λ e. ltb now e.expires) entries,
    w.single ssid bssid security,
  );
}

oldest_loop-lt-length :
    (i oldest expires : ℕ) (entries : List PmksaEntry)
    → oldest < i
    → oldest_loop i oldest expires entries < i + length entries
unfolding oldest_loop
oldest_loop-lt-length i oldest expires [] h = omega arith
oldest_loop-lt-length i oldest expires (e ∷ rest) h = ground (
  arith,
  oldest_loop-lt-length (suc i) i e.expires rest (omega arith),
  oldest_loop-lt-length (suc i) oldest expires rest (omega arith),
)

-- The index that the eviction takes is in range.
oldest_entry-lt-length :
    (entries : List PmksaEntry) → 0 < length entries → oldest_entry entries < length entries
unfolding oldest_entry
oldest_entry-lt-length [] h = omega arith
oldest_entry-lt-length (e ∷ rest) h =
    omega (arith, oldest_loop-lt-length 1 0 e.expires rest (omega arith))

length-evict :
    (entries : List PmksaEntry)
    → length entries ≤ max_entries
    → length (evict entries) < max_entries
unfolding evict
length-evict entries h = elim (Bool-cases (length entries == max_entries)) [
  | inl full ↦
      let size : length entries ≡ 32 = ground arith in
      rw full (
        omega (
          arith,
          length-swap_remove (oldest_entry entries) entries
              (oldest_entry-lt-length entries (omega arith)),
        ))
  | inr room ↦ rw room (ground arith)
]

pub count-evict :
    (p : PmksaEntry → Bool) (entries : List PmksaEntry) → count p (evict entries) ≤ count p entries
unfolding evict
count-evict p entries = elim (Bool-cases (length entries == max_entries)) [
  | inl full ↦ rw full (count-swap_remove p (oldest_entry entries) entries)
  | inr room ↦ rw room (omega arith)
]

-- Two entries of one key match the same keys.
abbrev same_key : PmksaEntry → PmksaEntry → Bool
same_key entry e = matches entry.ssid entry.bssid entry.security e

matches-same_key :
    (entry e : PmksaEntry) (ssid bssid : List ℕ) (security : SecurityType)
    → same_key entry e ≡ true
    → matches ssid bssid security e ≡ matches ssid bssid security entry
unfolding matches
matches-same_key entry e ssid bssid security h =
    ground (arith, bytes_eq→eq e.ssid entry.ssid, bytes_eq→eq e.bssid entry.bssid)

matches-key :
    (entry e : PmksaEntry) (ssid bssid : List ℕ) (security : SecurityType)
    → matches ssid bssid security entry ≡ true
    → matches ssid bssid security e ≡ same_key entry e
unfolding matches
matches-key entry e ssid bssid security h =
    ground (arith, bytes_eq→eq entry.ssid ssid, bytes_eq→eq entry.bssid bssid)

-- A full insertion: what is pushed is the only entry of its key.
count-pushed :
    (entry : PmksaEntry) (live : List PmksaEntry) (ssid bssid : List ℕ) (security : SecurityType)
    → count (same_key entry) live ≡ 0
    → count (matches ssid bssid security) live ≤ 1
    → count (matches ssid bssid security) (evict live ++ (entry ∷ [])) ≤ 1
count-pushed entry live ssid bssid security none_there h =
    let p = matches ssid bssid security in
    elim (Bool-cases (p entry)) [
      | inl t ↦
          rw (count-append p (evict live) (entry ∷ []), t)
            (omega (
              arith,
              count-evict p live,
              count-ext p (same_key entry) live (λ e. matches-key entry e ssid bssid security t),
            ))
      | inr f ↦ rw (count-append p (evict live) (entry ∷ []), f) (omega (arith, count-evict p live))
    ]

pub insert-IsCache :
    (now : ℕ) (entry : PmksaEntry) (entries : List PmksaEntry)
    → IsCache entries
    → IsCache (insert now entry entries)
unfolding insert
insert-IsCache now entry entries w =
    let live = remove_expired now entries in
    let v = remove_expired-IsCache now entries w in
    elim (Option-cases (replace_first (same_key entry) entry live)) [
      | inl nothing ↦
          rw (insert, nothing)
            (record {
              bounded =
                  omega
                    (arith, length-append (evict live) (entry ∷ []), length-evict live v.bounded);
              single = λ ssid bssid security.
                  count-pushed entry live ssid bssid security
                    (replace_first-none (same_key entry) entry live nothing)
                    (v.single ssid bssid security);
            })
      | inr (ys, found) ↦
          rw (insert, found)
            (record {
              bounded = omega (
                arith,
                (count-replace_first (same_key entry) (λ e. true) entry live ys (λ e h. refl)
                    found).0,
                v.bounded,
              );
              single = λ ssid bssid security. omega (
                arith,
                (count-replace_first (same_key entry) (matches ssid bssid security) entry live ys
                    (λ e h. matches-same_key entry e ssid bssid security h) found).1,
                v.single ssid bssid security,
              );
            })
    ]

pub invalidate-IsCache :
    (ssid bssid : List ℕ) (security : SecurityType) (entries : List PmksaEntry)
    → IsCache entries
    → IsCache (invalidate ssid bssid security entries).1
unfolding invalidate
invalidate-IsCache ssid bssid security entries w =
    elim (Option-cases (position (matches ssid bssid security) entries)) [
      | inl nothing ↦ rw (invalidate, nothing) w
      | inr (pos, found) ↦
          rw (invalidate, found)
            (record {
              bounded = omega (arith, length-swap_remove_le pos entries, w.bounded);
              single = λ s b k.
                  omega (arith, count-swap_remove (matches s b k) pos entries, w.single s b k);
            })
    ]

pub remove_ssid-IsCache :
    (ssid : List ℕ) (entries : List PmksaEntry)
    → IsCache entries
    → IsCache (remove_ssid ssid entries).1
unfolding remove_ssid
remove_ssid-IsCache ssid entries w =
    let kept = λ (e : PmksaEntry). not (bytes_eq e.ssid ssid) in
    record {
      bounded = omega (arith, length-retain kept entries, w.bounded);
      single = λ s b k. omega (arith, count-retain (matches s b k) kept entries, w.single s b k);
    }
