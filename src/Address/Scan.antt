-- ===== src/Address/Scan.antt =====
-- What `scan` finds in a text: groups of digits with their separators, and all such texts.
use lemon_server.Common.{
  ℕ, ◌≤◌, ◌≡◌, ◌⊎◌, inl, inr, refl, sym, ap, ◌∙◌, true, false, ◌&&◌, List, [], ◌∷◌, ◌++◌, Option,
  none, some, length, ==_iff, All, append-nil, arith, Bool-cases,
}
use mathlib.Core.Path.{subst}
use lemon_server.Common.Bytes.{Bytes, is_empty}
use lemon_server.Address.{digits_of, behind_digits, is_count, starts_with, tail, scan}
use lemon_server.Numbers.{is_digit}
use lemon_server.Numbers.Decimal.{Digit, Ended}

-- Between one and `most` digits.
abbrev pub Numeral : ℕ → Bytes → Type 0
Numeral most ds = All Digit ds × (1 ≤ length ds) × (length ds ≤ most)

-- The groups of digits with their separators.
abbrev pub Fits : List ℕ → List Bytes → Type 0
Fits [] [] = ⊥
Fits [] (d ∷ []) = Numeral 5 d
Fits [] (d ∷ e ∷ r) = ⊥
Fits (c ∷ cs) [] = ⊥
Fits (c ∷ cs) (d ∷ ds) = Numeral 3 d × Fits cs ds

abbrev pub joined : List ℕ → List Bytes → Bytes
joined [] [] = []
joined [] (d ∷ r) = d
joined (c ∷ cs) [] = []
joined (c ∷ cs) (d ∷ ds) = d ++ c ∷ joined cs ds

parts : (s : Bytes) → digits_of s ++ behind_digits s ≡ s
parts [] = refl
parts (c ∷ cs) = ground (arith, parts cs)

digits_of-All : (s : Bytes) → All Digit (digits_of s)
digits_of-All [] = tt
digits_of-All (c ∷ cs) = ground (arith, digits_of-All cs)

digits_of-append : (ds rest : Bytes) → All Digit ds → Ended rest → digits_of (ds ++ rest) ≡ ds
digits_of-append [] [] h e = refl
digits_of-append [] (c ∷ cs) h e = ground (arith, e)
digits_of-append (d ∷ ds) rest h e = ground (arith, h.0, digits_of-append ds rest h.1 e)

behind_digits-append :
    (ds rest : Bytes) → All Digit ds → Ended rest → behind_digits (ds ++ rest) ≡ rest
behind_digits-append [] [] h e = refl
behind_digits-append [] (c ∷ cs) h e = ground (arith, e)
behind_digits-append (d ∷ ds) rest h e = ground (arith, h.0, behind_digits-append ds rest h.1 e)

counted : (most : ℕ) (s : Bytes) → is_count most (digits_of s) ≡ true → Numeral most (digits_of s)
counted most s h = (digits_of-All s, ground arith, ground arith)

-- One group and its separator.
group_sound :
    (c : ℕ) (cs : List ℕ) (s : Bytes) (ds : List Bytes)
    → is_count 3 (digits_of s) ≡ true
    → starts_with c (behind_digits s) ≡ true
    → (tail (behind_digits s) ≡ joined cs ds) × Fits cs ds
    → (s ≡ joined (c ∷ cs) (digits_of s ∷ ds)) × Fits (c ∷ cs) (digits_of s ∷ ds)
group_sound c cs s ds h start (e, f) = (
  sym (parts s) ∙ ap (◌++◌ (digits_of s)) (split (behind_digits s) start ∙ ap (◌∷◌ c) e),
  (counted 3 s h, f),
)
  where
    split : (bs : Bytes) → starts_with c bs ≡ true → bs ≡ c ∷ tail bs
    split [] x = cc
    split (b ∷ bs) x = ap (λ (k : ℕ). k ∷ bs) ((==_iff b c).0 x)

-- What was scanned is the text.
pub scan_sound :
    (cs : List ℕ) (s : Bytes) (ds : List Bytes)
    → scan cs s ≡ some ds
    → (s ≡ joined cs ds) × Fits cs ds
unfolding scan
scan_sound [] s ds e = last (Bool-cases (is_count 5 (digits_of s) && is_empty (behind_digits s)))
  where
    nothing : (bs : Bytes) → is_empty bs ≡ true → bs ≡ []
    nothing [] h = refl
    nothing (b ∷ bs) h = cc

    last :
        (is_count 5 (digits_of s) && is_empty (behind_digits s) ≡ true)
          ⊎ (is_count 5 (digits_of s) && is_empty (behind_digits s) ≡ false)
        → (s ≡ joined [] ds) × Fits [] ds
    last (inl fits) =
        let this : digits_of s ∷ [] ≡ ds = ground (arith, e, fits) in
        subst (λ (x : List Bytes). (s ≡ joined [] x) × Fits [] x) this
          (
            sym (parts s)
                ∙ ap (◌++◌ (digits_of s)) (nothing (behind_digits s) (ground (arith, fits)))
                ∙ append-nil (digits_of s),
            counted 5 s (ground (arith, fits)),
          )
    last (inr other) = absurd (ground (arith, e, other))
scan_sound (c ∷ cs) s ds e =
    rest (λ l x. scan_sound cs (tail (behind_digits s)) l x) (scan cs (tail (behind_digits s))) refl
      (Bool-cases (is_count 3 (digits_of s) && starts_with c (behind_digits s)))
  where
    rest :
        ((l : List Bytes)
          → scan cs (tail (behind_digits s)) ≡ some l
          → (tail (behind_digits s) ≡ joined cs l) × Fits cs l)
        → (o : Option (List Bytes)) → scan cs (tail (behind_digits s)) ≡ o
        → (is_count 3 (digits_of s) && starts_with c (behind_digits s) ≡ true)
          ⊎ (is_count 3 (digits_of s) && starts_with c (behind_digits s) ≡ false)
        → (s ≡ joined (c ∷ cs) ds) × Fits (c ∷ cs) ds
    rest ih none x b = absurd (ground (arith, e, x))
    rest ih (some l) x (inr other) = absurd (ground (arith, e, other))
    rest ih (some l) x (inl fits) =
        let this : digits_of s ∷ l ≡ ds = ground (arith, e, fits, x) in
        subst (λ (y : List Bytes). (s ≡ joined (c ∷ cs) y) × Fits (c ∷ cs) y) this
          (group_sound c cs s l (ground (arith, fits)) (ground (arith, fits)) (ih l x))

-- A text of that form is scanned.
pub scan_complete :
    (cs : List ℕ) (ds : List Bytes)
    → All (λ c. is_digit c ≡ false) cs
    → Fits cs ds
    → scan cs (joined cs ds) ≡ some ds
unfolding scan
scan_complete [] [] h f = elim f [ ]
scan_complete [] (d ∷ []) h f = ground (
  arith,
  f,
  ap digits_of (append-nil d),
  ap behind_digits (append-nil d),
  digits_of-append d [] f.0 tt,
  behind_digits-append d [] f.0 tt,
)
scan_complete [] (d ∷ e ∷ r) h f = elim f [ ]
scan_complete (c ∷ cs) [] h f = elim f [ ]
scan_complete (c ∷ cs) (d ∷ ds) h f =
    let front = digits_of-append d (c ∷ joined cs ds) f.0.0 h.0 in
    let back = behind_digits-append d (c ∷ joined cs ds) f.0.0 h.0 in
    ground (arith, f, front, back, ap tail back, scan_complete cs ds h.1 f.1)
