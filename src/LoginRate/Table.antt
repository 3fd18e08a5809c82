-- ===== src/LoginRate/Table.antt =====
-- server_check_login_rate as a step of one entry for each address.
use multi_client_chat_server.Prelude.{
  ℕ, suc, ◌+◌, ◌≡◌, ◌≤◌, refl, sym, ap, subst, ◌∙◌, arith, Bool, true, false, ◌||◌, Bool-cases, inl,
  inr, none, some, List, [], ◌∷◌, ◌++◌, Text, text_eq, text_eq_refl, text_eq_sound, ltb,
  if◌then◌else◌, length, get_or, set, take_of_length_le,
}
use multi_client_chat_server.LoginRate.{
  RateEntry, new_entry, place_of, find_login_rate, attempt, answer_rate, server_check_login_rate,
  max_rate_entries,
}

-- The entry of an address, a new one where there is none.
pub entry_of : Text → List RateEntry → RateEntry
entry_of ip [] = new_entry ip
entry_of ip (e ∷ es) = let rest = entry_of ip es in if text_eq e.ip ip then e else rest

unfoldable pub has_entry : Text → List RateEntry → Bool
has_entry ip [] = false
has_entry ip (e ∷ es) = text_eq e.ip ip || has_entry ip es

ip-attempt : (now : ℕ) (e : RateEntry) → (attempt now e).0.ip ≡ e.ip
unfolding attempt
ip-attempt now e = ground arith

here :
    (ip : Text) (e' e : RateEntry) (x : Text) (other rest : RateEntry) (f : RateEntry → RateEntry)
    → f e ≡ e'
    → e'.ip ≡ e.ip
    → e.ip ≡ ip
    → (if text_eq e'.ip x then e' else other) ≡ (
        if text_eq ip x
        then f (if text_eq e.ip ip then e else rest)
        else (if text_eq e.ip x then e else other))
here ip e' e x other rest f h same q =
    let p : text_eq e.ip ip ≡ true = (ap (text_eq e.ip) (sym q)) ∙ text_eq_refl e.ip in
    let r : text_eq e.ip x ≡ text_eq ip x = ap (λ z. text_eq z x) q in
    let r' : text_eq e'.ip x ≡ text_eq ip x = ap (λ z. text_eq z x) (same ∙ q) in
    ground (arith, h, p, r, r')

there :
    (ip : Text) (e : RateEntry) (x : Text) (new old : RateEntry)
    → text_eq e.ip ip ≡ false
    → (if text_eq e.ip x then e else (if text_eq ip x then new else old))
      ≡ (if text_eq ip x then new else (if text_eq e.ip x then e else old))
there ip e x new old p = elim (Bool-cases (text_eq ip x)) [
  | inl q ↦
      let r : text_eq e.ip x ≡ false = (ap (text_eq e.ip) (sym (text_eq_sound ip x q))) ∙ p in
      rw (q, r) refl
  | inr q ↦ rw q refl
]

-- An address that is found: `i` is its place from `k` on.
found_lem :
    (ip : Text) (f : RateEntry → RateEntry) (es : List RateEntry) (k : ℕ)
    → ((e : RateEntry) → (f e).ip ≡ e.ip)
    → has_entry ip es ≡ true
    → (i : ℕ) × (place_of ip es k ≡ some (i + k))
      × (get_or es i (new_entry []) ≡ entry_of ip es)
      × ((x : Text)
          → entry_of x (set es i (f (get_or es i (new_entry []))))
            ≡ (if text_eq ip x then f (entry_of ip es) else entry_of x es))
      × ((x : Text) → has_entry x (set es i (f (get_or es i (new_entry [])))) ≡ has_entry x es)
unfolding has_entry place_of entry_of
found_lem ip f [] k same h = absurd (cc)
found_lem ip f (e ∷ es) k same h = elim (Bool-cases (text_eq e.ip ip)) [
  | inl p ↦
      let q = text_eq_sound e.ip ip p in
      (
        0,
        rw p (ap some (omega arith)),
        rw p refl,
        λ x. here ip (f e) e x (entry_of x es) (entry_of ip es) f refl (same e) q,
        λ x. rw (same e) refl,
      )
  | inr p ↦
      let (i, at, got, entries, has) = found_lem ip f es (suc k) same (ground (arith, h)) in
      (
        suc i,
        rw p (at ∙ ap some (omega arith)),
        rw p got,
        λ x. rw p (rw (entries x) (there ip e x _ _ p)),
        λ x. rw (has x) refl,
      )
]

pub missing_lem :
    (ip : Text) (es : List RateEntry) (k : ℕ) → has_entry ip es ≡ false → place_of ip es k ≡ none
unfolding has_entry place_of
missing_lem ip [] k h = refl
missing_lem ip (e ∷ es) k h = ground (arith, missing_lem ip es (suc k))

-- A new entry at the end.
get_or-last : (es : List RateEntry) (e d : RateEntry) → get_or (es ++ (e ∷ [])) (length es) d ≡ e
get_or-last [] e d = refl
get_or-last (x ∷ es) e d = get_or-last es e d

set-last :
    (es : List RateEntry) (e e' : RateEntry) → set (es ++ (e ∷ [])) (length es) e' ≡ es ++ (e' ∷ [])
set-last [] e e' = refl
set-last (x ∷ es) e e' = ap (◌∷◌ x) (set-last es e e')

entry_of-last :
    (ip : Text) (es : List RateEntry) (e : RateEntry) (x : Text)
    → e.ip ≡ ip
    → has_entry ip es ≡ false
    → (entry_of x (es ++ (e ∷ [])) ≡ (if text_eq ip x then e else entry_of x es))
      × (has_entry x (es ++ (e ∷ [])) ≡ (text_eq ip x || has_entry x es))
unfolding entry_of has_entry
entry_of-last ip [] e x q h = (rw (ap (λ z. text_eq z x) q) refl, rw (ap (λ z. text_eq z x) q) refl)
entry_of-last ip (y ∷ es) e x q h = elim (Bool-cases (text_eq y.ip ip)) [
  | inl p ↦ absurd (ground (arith, h, p))
  | inr p ↦
      let (a, b) = entry_of-last ip es e x q (ground (arith, h, p)) in
      (rw a (there ip y x _ _ p), rw b (ground arith))
]

pub entry_of-missing :
    (ip : Text) (es : List RateEntry) → has_entry ip es ≡ false → entry_of ip es ≡ new_entry ip
unfolding entry_of has_entry
entry_of-missing ip [] h = refl
entry_of-missing ip (e ∷ es) h = ground (arith, entry_of-missing ip es, h)

known :
    (ip x : Text) (es : List RateEntry)
    → has_entry ip es ≡ true
    → has_entry x es ≡ (text_eq ip x || has_entry x es)
known ip x es h = elim (Bool-cases (text_eq ip x)) [
  | inl p ↦ rw p (ap (λ z. has_entry z es) (sym (text_eq_sound ip x p)) ∙ h)
  | inr p ↦ rw p refl
]

-- What the theorem below says of a result.
abbrev Steps : Text → ℕ → List RateEntry → List RateEntry × Bool → Type 0
Steps ip now es r =
    (r.1 ≡ (attempt now (entry_of ip es)).1)
    × ((x : Text)
        → entry_of x r.0
          ≡ (if text_eq ip x then (attempt now (entry_of ip es)).0 else entry_of x es))
    × ((x : Text) → has_entry x r.0 ≡ (text_eq ip x || has_entry x es))

-- For an address of at most 45 bytes that has an entry, or where the table has room for one:
-- server_check_login_rate answers by a step of the address's own entry, changes this entry to the result of the
-- step and no other address's, and afterwards has an entry for this address and those of before.
pub check-attempt :
    (ip : Text) (now : ℕ) (es : List RateEntry)
    → length ip ≤ 45
    → (has_entry ip es || ltb (length es) max_rate_entries) ≡ true
    → (let (es', b) = server_check_login_rate ip now es in
        let (e, granted) = attempt now (entry_of ip es) in
        (b ≡ granted)
        × ((x : Text) → entry_of x es' ≡ (if text_eq ip x then e else entry_of x es))
        × ((x : Text) → has_entry x es' ≡ (text_eq ip x || has_entry x es)))
unfolding server_check_login_rate find_login_rate answer_rate
check-attempt ip now es short room = elim (Bool-cases (has_entry ip es)) [
  | inl h ↦
      let (i, at, got, entries, has) =
        found_lem ip (λ e. (attempt now e).0) es 0 (ip-attempt now) h in
      let at' : place_of ip es 0 ≡ some i = at ∙ ap some (omega arith) in
      let f : find_login_rate ip es ≡ (es, some i) = rw (at', find_login_rate) refl in
      subst (λ z. Steps ip now es (answer_rate now z)) (sym f)
        ((ap (λ e. (attempt now e).1) got, entries, λ x. has x ∙ known ip x es h))
  | inr h ↦
      let l : ltb (length es) max_rate_entries ≡ true = ground (arith, room, h) in
      let f : find_login_rate ip es ≡ (es ++ (new_entry ip ∷ []), some (length es)) =
        rw (missing_lem ip es 0 h, find_login_rate) (rw l refl) in
      let e = (attempt now (new_entry ip)).0 in
      let q : e.ip ≡ ip = ip-attempt now (new_entry ip) ∙ take_of_length_le 45 ip short in
      subst (λ z. Steps ip now es (answer_rate now z)) (sym f)
        (rw
          (
            get_or-last es (new_entry ip) (new_entry []),
            set-last es (new_entry ip) e,
            entry_of-missing ip es h,
          )
          ((refl, λ x. (entry_of-last ip es e x q h).0, λ x. (entry_of-last ip es e x q h).1)))
]
