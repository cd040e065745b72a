-- ===== src/Address/Grammar.antt =====
-- What the pattern accepts, and what comes of it.
use lemon_server.Common.{
  ℕ, ◌%◌, ◌^◌, ◌≤◌, ◌≡◌, ◌⊎◌, inl, inr, refl, sym, ap, ◌∙◌, List, [], ◌∷◌, ◌++◌, Option, none, some,
  length, append_assoc, append-nil, arith,
}
use mathlib.Core.Path.{subst}
use native.Mathlib.Nat.{pow-le-pow_right}
use lemon_server.Common.Bytes.{Bytes}
use lemon_server.Address.{scan, groups, separators, regex_match, endpoint, matched, endpoint_of}
use lemon_server.Numbers.{strtol, to_ushort}
use lemon_server.Numbers.Decimal.{numeral_value, strtol-numeral, numeral_value-lt}
use lemon_server.Protocol.Errors.{bad_address_format, std_exception, ok, throw}
use lemon_server.Address.Scan.{Numeral, Fits, joined, scan_sound, scan_complete}

-- An address: four groups of up to three digits with points between them, which are the first group
-- of the pattern, a colon, and up to five digits, which are the third.
pub record IsAddress (addr ip port : Bytes) : Type 0 where
  pub a : Bytes
  pub b : Bytes
  pub c : Bytes
  pub d : Bytes
  pub numerals : Numeral 3 a × Numeral 3 b × Numeral 3 c × Numeral 3 d
  pub number : Numeral 5 port
  pub ip_text : ip ≡ a ++ b'.' ∷ (b ++ b'.' ∷ (c ++ b'.' ∷ d))
  pub text : addr ≡ ip ++ b':' ∷ port

abbrev five : Bytes → Bytes → Bytes → Bytes → Bytes → List Bytes
five a b c d p = a ∷ b ∷ c ∷ d ∷ p ∷ []

regroup :
    (a b c d p : Bytes)
    → (a ++ b'.' ∷ (b ++ b'.' ∷ (c ++ b'.' ∷ d))) ++ b':' ∷ p ≡ joined separators (five a b c d p)
regroup a b c d p =
    append_assoc a (b'.' ∷ (b ++ b'.' ∷ (c ++ b'.' ∷ d))) (b':' ∷ p)
    ∙ ap (λ (t : Bytes). a ++ b'.' ∷ t)
        (append_assoc b (b'.' ∷ (c ++ b'.' ∷ d)) (b':' ∷ p)
          ∙ ap (λ (t : Bytes). b ++ b'.' ∷ t) (append_assoc c (b'.' ∷ d) (b':' ∷ p)))

grouped : Option (List Bytes) → Option (Bytes × Bytes)
unfolding groups
grouped o = elim o [ none ↦ none | some ds ↦ groups ds ]

regex_match_lem : (addr : Bytes) → regex_match addr ≡ grouped (scan separators addr)
unfolding regex_match grouped
regex_match_lem addr = refl

regex_match_complete :
    (addr ip port : Bytes) → IsAddress addr ip port → regex_match addr ≡ some (ip, port)
unfolding grouped
regex_match_complete addr ip port h =
    regex_match_lem addr
    ∙ ap grouped (
        ap (scan separators) form
        ∙ scan_complete separators ds (refl, (refl, (refl, (refl, tt)))) fits)
    ∙ (unfold groups in ap (λ (t : Bytes). some (t, port)) (sym h.ip_text))
  where
    ds : List Bytes
    ds = five h.a h.b h.c h.d port

    fits : Fits separators ds
    fits = (h.numerals.0, (h.numerals.1, (h.numerals.2, (h.numerals.3, h.number))))

    form : addr ≡ joined separators ds
    form = h.text ∙ ap (λ (t : Bytes). t ++ b':' ∷ port) h.ip_text ∙ regroup h.a h.b h.c h.d port

from_groups :
    (addr ip port : Bytes) (ds : List Bytes)
    → addr ≡ joined separators ds
    → Fits separators ds
    → groups ds ≡ some (ip, port)
    → IsAddress addr ip port
unfolding groups
from_groups addr ip port (a ∷ b ∷ c ∷ d ∷ p ∷ []) form fits e =
    let ip_text = ap (λ o. (pair o).0) (sym e) in
    let third = ap (λ o. (pair o).1) e in
    record {
      a = a;
      b = b;
      c = c;
      d = d;
      numerals = (fits.0, fits.1.0, fits.1.1.0, fits.1.1.1.0);
      number = subst (Numeral 5) third fits.1.1.1.1;
      ip_text = ip_text;
      text =
          form
          ∙ sym (regroup a b c d p)
          ∙ ap (λ t. t ++ b':' ∷ p) (sym ip_text)
          ∙ ap (λ t. ip ++ b':' ∷ t) third;
    }
  where
    pair : Option (Bytes × Bytes) → Bytes × Bytes
    pair none = ([], [])
    pair (some q) = q
from_groups addr ip port ds form fits e = absurd (ground (arith, e))

regex_match_sound :
    (addr ip port : Bytes) → regex_match addr ≡ some (ip, port) → IsAddress addr ip port
unfolding groups grouped
regex_match_sound addr ip port e = from (scan separators addr) refl (sym (regex_match_lem addr) ∙ e)
  where
    from :
        (o : Option (List Bytes))
        → scan separators addr ≡ o
        → grouped o ≡ some (ip, port)
        → IsAddress addr ip port
    from none x m = absurd (ground (arith, m))
    from (some ds) x m =
        let both = scan_sound separators addr ds x in from_groups addr ip port ds both.0 both.1 m

port_value : (port : Bytes) → Numeral 5 port → strtol port ≡ numeral_value 0 port
port_value [] h = absurd (omega (arith, h))
port_value (d ∷ ds) h =
    ap strtol (sym (append-nil (d ∷ ds)))
    ∙ strtol-numeral d ds [] h.0 tt
        (omega (arith, numeral_value-lt (d ∷ ds) 0 h.0, pow_le (length (d ∷ ds)) h.2))
  where
    pow_le : (n : ℕ) → n ≤ 5 → 10 ^ n ≤ 100_000
    pow_le n le = pow-le-pow_right (omega arith) le

module _ {A : Type 0} (from_string : Bytes → Option A) where
  abbrev pub Accepted : Bytes → Bytes → Bytes → Type 0
  Accepted addr ip port =
      ((from_string ip ≡ none) × (endpoint from_string addr ≡ throw std_exception))
      ⊎ ((x : A) × (from_string ip ≡ some x)
          × (endpoint from_string addr ≡ ok (x, numeral_value 0 port % 2 ^ 16)))

  endpoint_lem : (addr : Bytes) → endpoint from_string addr ≡ matched from_string (regex_match addr)
  unfolding endpoint
  endpoint_lem addr = refl

  -- What the program takes from the text of an address: it throws the format error exactly if the
  -- text has not that form, throws a standard error if the form is right and `from_string` refuses
  -- its first part, and otherwise makes the end point of that part's address and of the port's
  -- number, which is cut to 16 bits.
  pub endpoint_cases :
      (addr : Bytes)
      → ((ip port : Bytes) × IsAddress addr ip port × Accepted addr ip port)
        ⊎ (((ip port : Bytes) → IsAddress addr ip port → ⊥)
            × (endpoint from_string addr ≡ throw bad_address_format))
  unfolding matched endpoint_of
  endpoint_cases addr = by_groups (regex_match addr) refl
    where
      at :
          (ip port : Bytes)
          → IsAddress addr ip port
          → (o : Option A) → from_string ip ≡ o
          → Accepted addr ip port
      at ip port h none e = inl (
        e,
        endpoint_lem addr
            ∙ ap (matched from_string) (regex_match_complete addr ip port h)
            ∙ ap (endpoint_of from_string port) e,
      )
      at ip port h (some x) e = inr (
        x,
        e,
        endpoint_lem addr
            ∙ ap (matched from_string) (regex_match_complete addr ip port h)
            ∙ ap (endpoint_of from_string port) e
            ∙ ap (λ k. ok (x, to_ushort k)) (port_value port h.number),
      )

      by_groups :
          (o : Option (Bytes × Bytes))
          → regex_match addr ≡ o
          → ((ip port : Bytes) × IsAddress addr ip port × Accepted addr ip port)
            ⊎ (((ip port : Bytes) → IsAddress addr ip port → ⊥)
                × (endpoint from_string addr ≡ throw bad_address_format))
      by_groups none e = inr (
        λ ip port h. ground (arith, e, regex_match_complete addr ip port h),
        endpoint_lem addr ∙ ap (matched from_string) e,
      )
      by_groups (some (ip, port)) e =
          let h = regex_match_sound addr ip port e in
          inl (ip, port, h, at ip port h (from_string ip) refl)
