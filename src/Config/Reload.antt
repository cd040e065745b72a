-- ===== src/Config/Reload.antt =====
-- What the configuration has after it was read.
use lemon_server.Common.{
  ◌≡◌, refl, sym, ap, ◌∙◌, Bool, List, [], ◌∷◌, Option, none, some, true, false, Bool-cases, ◌⊎◌,
  inl, inr, arith, if◌then◌else◌,
}
use lemon_server.Common.Bytes.{Bytes, same, same_iff}
use lemon_server.Common.Maps.{find, insert, find-insert}
use lemon_server.Config.{
  Section, rooted, AttributeMap, section_map, sections, reload, attribute, found,
  get_attribute_string,
}
use lemon_server.Protocol.Errors.{ok}

-- The last text with the name, or else what was there.
abbrev pub last_text : Bytes → List (Bytes × Option Bytes) → Option Bytes → Option Bytes
last_text key [] o = o
last_text key ((k, t) ∷ nodes) o = last_text key nodes (if same k key then t else o)

-- The nodes of the last section with the name.
abbrev pub last_section : Bytes → List Section → Option Section → Option Section
last_section name [] o = o
last_section name (s ∷ rest) o = last_section name rest (if same s.name name then some s else o)

-- What the file says of a key: of a section that it has, that section's last text with the key or the empty
-- text; and of another section, what was known before.
abbrev pub said : Bytes → Bytes → Option Section → AttributeMap → Bytes
said name key none m = attribute name key m
said name key (some s) m = found [] (last_text key s.nodes none)

section_map-find :
    (key : Bytes) (nodes : List (Bytes × Option Bytes)) (m m' : List (Bytes × Bytes))
    → section_map nodes m ≡ some m'
    → find key m' ≡ last_text key nodes (find key m)
unfolding section_map
section_map-find key [] m m' e = cc
section_map-find key ((k, none) ∷ nodes) m m' e = absurd (ground (arith, e))
section_map-find key ((k, some t) ∷ nodes) m m' e =
    section_map-find key nodes (insert k t m) m' e
    ∙ ap (last_text key nodes) (find-insert k key t m)

find_nil : (key : Bytes) → find {V = Bytes} key [] ≡ none
unfolding find
find_nil key = refl

some_inj : (a b : AttributeMap) → ◌≡◌ {A = Option AttributeMap} (some a) (some b) → a ≡ b
some_inj a b e = cc

module _ (name key : Bytes) (before : AttributeMap) where
  -- One section is read, after those that `o` comes of.
  section_said :
      (s : Section) (section : List (Bytes × Bytes)) (m : AttributeMap) (o : Option Section)
      → section_map s.nodes [] ≡ some section
      → attribute name key m ≡ said name key o before
      → attribute name key (insert s.name section m)
        ≡ said name key (if same s.name name then some s else o) before
  section_said s section m o e h =
      ap (λ (f : Option (List (Bytes × Bytes))). found [] (find key (found [] f)))
        (find-insert s.name name section m)
      ∙ branch (same s.name name)
    where
      branch :
          (b : Bool)
          → found [] (find key (found [] (if b then some section else find name m)))
            ≡ said name key (if b then some s else o) before
      branch Bool.true =
          ap (found [])
            (section_map-find key s.nodes [] section e ∙ ap (last_text key s.nodes) (find_nil key))
      branch Bool.false = h

  sections-said :
      (l : List Section) (m m' : AttributeMap) (o : Option Section)
      → sections l m ≡ some m'
      → attribute name key m ≡ said name key o before
      → attribute name key m' ≡ said name key (last_section name l o) before
  unfolding sections
  sections-said [] m m' o e h = ap (attribute name key) (some_inj m' m (sym e)) ∙ h
  sections-said (s ∷ rest) m m' o e h = next (section_map s.nodes []) refl e (λ section x.
      sections-said rest (insert s.name section m) m' (if same s.name name then some s else o))
    where
      next :
          (q : Option (List (Bytes × Bytes)))
          → section_map s.nodes [] ≡ q
          → (elim q [ none ↦ none | some section ↦ sections rest (insert s.name section m) ])
            ≡ some m'
          → ((section : List (Bytes × Bytes))
              → section_map s.nodes [] ≡ some section
              → sections rest (insert s.name section m) ≡ some m'
              → attribute name key (insert s.name section m)
                ≡ said name key (if same s.name name then some s else o) before
              → attribute name key m'
                ≡ said name key
                    (last_section name rest (if same s.name name then some s else o))
                    before)
          → attribute name key m'
            ≡ said name key (last_section name rest (if same s.name name then some s else o)) before
      next none x y go = absurd (ground (arith, y))
      next (some section) x y go = go section x y (section_said s section m o x h)

-- Making the entries that are missing changes no value.
pub attribute-made :
    (n k name key : Bytes) (m : AttributeMap)
    → attribute n k (insert name (insert key (attribute name key m) (found [] (find name m))) m)
      ≡ attribute n k m
attribute-made n k name key m =
    ap (λ (f : Option (List (Bytes × Bytes))). found [] (find k (found [] f)))
      (find-insert name n (insert key (attribute name key m) (found [] (find name m))) m)
    ∙ at_section (Bool-cases (same name n))
  where
    at_key :
        (b : (same key k ≡ true) ⊎ (same key k ≡ false))
        → found []
            (if same key k then some (attribute name key m) else find k (found [] (find name m)))
          ≡ attribute name k m
    at_key (inl here) = rw here (ap (λ (x : Bytes). attribute name x m) ((same_iff key k).0 here))
    at_key (inr other) = rw other refl

    at_section :
        (b : (same name n ≡ true) ⊎ (same name n ≡ false))
        → found [] (
            find k (
              found [] (
                if same name n
                then some (insert key (attribute name key m) (found [] (find name m)))
                else find n m)))
          ≡ attribute n k m
    at_section (inl here) = rw here (
        ap (found []) (find-insert key k (attribute name key m) (found [] (find name m)))
        ∙ at_key (Bool-cases (same key k))
        ∙ ap (λ (x : Bytes). attribute x k m) ((same_iff name n).0 here))
    at_section (inr other) = rw other refl

-- A file with a root element, all of whose texts are there, is read over what was known before, and
-- then a key of a section is asked for: the answer is the last text that the section's last
-- occurrence in the file has for the key, or the empty text; if the file has no such section it is
-- what was known before. Asking makes entries, but changes no answer.
pub get_attribute_string-reload :
    (l : List Section) (before m : AttributeMap) (name key : Bytes)
    → reload (rooted l) before ≡ some (ok m)
    → (after : AttributeMap) × (get_attribute_string (some name) (some key) m
        ≡ ok (said name key (last_section name l none) before, after))
      × ((n k : Bytes) → attribute n k after ≡ attribute n k m)
unfolding reload get_attribute_string
get_attribute_string-reload l before m name key e = (
  insert name (insert key (attribute name key m) (found [] (find name m))) m,
  ap
      (λ (v : Bytes).
        ok (v, insert name (insert key (attribute name key m) (found [] (find name m))) m))
      (sections-said name key before l before m none (read (sections l before) e) refl),
  λ n k. attribute-made n k name key m,
)
  where
    read :
        (o : Option AttributeMap)
        → (elim o [ none ↦ none | some m' ↦ some (ok m') ]) ≡ some (ok m)
        → o ≡ some m
    read none x = absurd (ground (arith, x))
    read (some m') x = cc
