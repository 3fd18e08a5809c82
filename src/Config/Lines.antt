-- ===== src/Config/Lines.antt =====
-- src/config.c: what config_load makes of the lines of a file.
use multi_client_chat_server.Prelude.{
  ℕ, ◌≡◌, refl, sym, ap, ◌∙◌, arith, true, false, ◌||◌, some, [], ◌∷◌, ◌++◌, append_assoc, Text,
  ◌==◌, if◌then◌else◌, All, All-append, ap₂,
}
use multi_client_chat_server.Protocol.Number.{is_space}
use multi_client_chat_server.Config.{skip_leading, strip_end, trim, split_eq, setting_of}

-- Blanks that may stand around a key and a value.
abbrev Spaces : Text → Type 0
Spaces s = All (λ c. is_space c ≡ true) s

skip_leading-append : (p s : Text) → Spaces p → skip_leading (p ++ s) ≡ skip_leading s
unfolding skip_leading
skip_leading-append [] s h = refl
skip_leading-append (c ∷ p) s h = rw (h.0) (skip_leading-append p s h.1)

strip_end-gap : (p : Text) → Spaces p → strip_end p ≡ []
unfolding strip_end
strip_end-gap [] h = refl
strip_end-gap (c ∷ p) h = rw (strip_end-gap p h.1, h.0) refl

-- The end of a text that strip_end does not empty.
strip_end-append :
    (s t : Text) (c : ℕ) (u : Text) → strip_end t ≡ c ∷ u → strip_end (s ++ t) ≡ s ++ (c ∷ u)
unfolding strip_end
strip_end-append [] t c u h = h
strip_end-append (x ∷ []) t c u h = rw h refl
strip_end-append (x ∷ (y ∷ s)) t c u h = rw (strip_end-append (y ∷ s) t c u h) refl

strip_end-trailing : (s p : Text) → Spaces p → strip_end (s ++ p) ≡ strip_end s
unfolding strip_end
strip_end-trailing [] p h = strip_end-gap p h
strip_end-trailing (x ∷ s) p h = rw (strip_end-trailing s p h) refl

split_eq-append :
    (k v : Text) → All (λ c. (c == b'=') ≡ false) k → split_eq (k ++ (b'=' ∷ v)) ≡ some (k, v)
unfolding split_eq
split_eq-append [] v h = refl
split_eq-append (c ∷ k) v h = rw (h.0, split_eq-append k v h.1) refl

strip_end-eq : (w : Text) → strip_end (b'=' ∷ w) ≡ b'=' ∷ strip_end w
unfolding strip_end is_space
strip_end-eq w =
    elim (strip_end w)
      as (λ t.
        ◌≡◌ {A = Text}
          (elim t [ [] ↦ if is_space b'=' then [] else b'=' ∷ [] | x ∷ xs ↦ b'=' ∷ (x ∷ xs) ])
          (b'=' ∷ t)) [ [] ↦ refl | x ∷ xs ↦ refl ]

no_eq_within : (p : Text) → Spaces p → All (λ c. (c == b'=') ≡ false) p
unfolding is_space
no_eq_within [] h = tt
no_eq_within (c ∷ p) h = (ground (arith, h.0), no_eq_within p h.1)

skip_solid : (c : ℕ) (s : Text) → is_space c ≡ false → skip_leading (c ∷ s) ≡ c ∷ s
unfolding skip_leading
skip_solid c s h = rw h refl

-- What stands behind the sign.
value_lem :
    (p3 val p4 : Text)
    → Spaces p3
    → Spaces p4
    → skip_leading val ≡ val
    → strip_end val ≡ val
    → trim (strip_end (p3 ++ (val ++ p4))) ≡ val
unfolding trim
value_lem p3 [] p4 b3 b4 hs he =
    let e : strip_end (p3 ++ p4) ≡ [] = strip_end-trailing p3 p4 b4 ∙ strip_end-gap p3 b3 in
    rw e (ap strip_end hs ∙ he)
value_lem p3 (v ∷ vs) p4 b3 b4 hs he =
    let e : strip_end (p3 ++ ((v ∷ vs) ++ p4)) ≡ p3 ++ (v ∷ vs) =
      strip_end-append p3 ((v ∷ vs) ++ p4) v vs (strip_end-trailing (v ∷ vs) p4 b4 ∙ he) in
    rw (e, skip_leading-append p3 (v ∷ vs) b3, hs) he

-- A line of a key and a value with blanks around each of the two and the sign between them is read as this key and this
-- value, where the key does not begin with a blank, `#` or `[`, does not end with a blank and holds no
-- sign, and the value neither begins nor ends with a blank.
pub setting_of-line :
    (p1 : Text) (c : ℕ) (k p2 p3 val p4 : Text)
    → Spaces p1
    → Spaces p2
    → Spaces p3
    → Spaces p4
    → is_space c ≡ false
    → (c == b'#' || c == b'[') ≡ false
    → All (λ x. (x == b'=') ≡ false) (c ∷ k)
    → strip_end (c ∷ k) ≡ c ∷ k
    → skip_leading val ≡ val
    → strip_end val ≡ val
    → setting_of (p1 ++ ((c ∷ k) ++ (p2 ++ (b'=' ∷ (p3 ++ (val ++ p4)))))) ≡ some (c ∷ k, val)
unfolding setting_of trim
setting_of-line p1 c k p2 p3 val p4 b1 b2 b3 b4 solid plain no_eq ke vs ve =
    let key : Text = c ∷ k in
    let w = p3 ++ (val ++ p4) in
    let raw : trim (p1 ++ (key ++ (p2 ++ (b'=' ∷ w)))) ≡ (key ++ p2) ++ (b'=' ∷ strip_end w) =
      ap strip_end (
        skip_leading-append p1 (key ++ (p2 ++ (b'=' ∷ w))) b1
        ∙ skip_solid c (k ++ (p2 ++ (b'=' ∷ w))) solid)
      ∙ (ap strip_end (sym (append_assoc key p2 (b'=' ∷ w)))
          ∙ strip_end-append (key ++ p2) (b'=' ∷ w) b'=' (strip_end w) (strip_end-eq w)) in
    let split : split_eq ((key ++ p2) ++ (b'=' ∷ strip_end w)) ≡ some (key ++ p2, strip_end w) =
      split_eq-append (key ++ p2) (strip_end w) (All-append _ key p2 no_eq (no_eq_within p2 b2)) in
    let name : trim (key ++ p2) ≡ key =
      ap strip_end (skip_solid c (k ++ p2) solid) ∙ (strip_end-trailing key p2 b2 ∙ ke) in
    rw (raw, setting_of)
      (rw (plain, split) (ap₂ (λ a b. some (a, b)) name (value_lem p3 val p4 b3 b4 vs ve)))
