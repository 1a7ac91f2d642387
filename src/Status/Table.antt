-- ===== src/Status/Table.antt =====
-- The entries of the status table.
use simple_http.Base.{
  leb, ltb, ◌&&◌, subst, str_eq_sound, str_eq, ◌||◌, and_split, ◌≤◌, ◌<◌, ◌≡◌, refl, Bool, true,
  some, List, [], ◌∷◌, ◌==◌, arith, length, inl, inr, Bool-cases,
}
use simple_http.Base.Int.{ℤ, pos, eq_int, eq_int_sound}
use simple_http.Printf.{show_int}
use simple_http.Status.{Status, ok_status, status_map, lookup_from, lookup_status}

-- The text of the code is its decimal print, three bytes long, and the reason phrase is a text of
-- at most 32 bytes.
abbrev pub Consistent : Status → Type 0
Consistent s =
    (show_int s.p1 ≡ s.p2) × (length s.p2 ≡ 3) × (0 < length s.value) × (length s.value ≤ 32)

is_consistent : Status → Bool
is_consistent s =
    str_eq (show_int s.p1) s.p2
    && (length s.p2 == 3 && (ltb 0 (length s.value) && leb (length s.value) 32))

is_consistent_sound : (s : Status) → is_consistent s ≡ true → Consistent s
unfolding is_consistent
is_consistent_sound s h =
    let (text, rest) = and_split (str_eq (show_int s.p1) s.p2) _ h in
    (str_eq_sound _ _ text, ground arith, ground arith, ground arith)

abbrev consistent_from : List Status → Bool
consistent_from [] = true
consistent_from (e ∷ rest) = (eq_int e.p1 (pos 0) || is_consistent e) && consistent_from rest

status_map_consistent : consistent_from status_map ≡ true
unfolding status_map is_consistent show_int
status_map_consistent = refl

lookup_from_sound :
    (entries : List Status) (code : ℤ) {s : Status}
    → consistent_from entries ≡ true
    → lookup_from entries code ≡ some s
    → (s.p1 ≡ code) × (is_consistent s ≡ true)
unfolding lookup_from
lookup_from_sound [] code a h = ground arith
lookup_from_sound (e ∷ rest) code {s} a h = elim (Bool-cases (eq_int e.p1 (pos 0))) [
  | inl end ↦ cc (rw end at h)
  | inr more ↦
      let (good, others) = and_split (is_consistent e) (consistent_from rest) (rw more at a) in
      elim (Bool-cases (eq_int e.p1 code)) [
        | inl hit ↦
            let same : e ≡ s = cc (rw (more, hit) at h) in
            subst (λ (t : Status). (t.p1 ≡ code) × (is_consistent t ≡ true)) same
              (eq_int_sound e.p1 code hit, good)
        | inr miss ↦ lookup_from_sound rest code others (rw (more, miss) at h)
      ]
]

-- An entry that `lookup_status` returns has the code that was asked for, its text is the code in
-- decimal, three bytes long, and its reason phrase has 1 to 32 bytes.
pub lookup_status-Consistent :
    (code : ℤ) {s : Status} → lookup_status code ≡ some s → (s.p1 ≡ code) × Consistent s
unfolding lookup_status
lookup_status-Consistent code {s} h =
    let (same, good) = lookup_from_sound status_map code status_map_consistent h in
    (same, is_consistent_sound s good)

pub ok_status-Consistent : Consistent ok_status
unfolding show_int
ok_status-Consistent = (refl, refl, omega arith, omega arith)
