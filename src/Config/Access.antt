-- ===== src/Config/Access.antt =====
-- Code that asks the configuration, which is a global object, and what it gives.
use Prim.Native.Char.{code}
use Prim.Native.String.{String}
use lemon_server.Common.{ℕ, [], ◌∷◌, ◌≡◌, refl, ap, ◌∙◌, some}
use lemon_server.Common.Bytes.{Bytes, c_str}
use lemon_server.Common.Maps.{find, insert}
use lemon_server.Config.{AttributeMap, attribute, found, get_attribute_string, get_attribute_int}
use lemon_server.Config.Reload.{attribute-made}
use lemon_server.Numbers.{strtol, to_int}
use lemon_server.Protocol.Errors.{Result, ok, throw}

-- The bytes of a literal.
abbrev pub bytes : String → Bytes
bytes String.[] = []
bytes (String.◌∷◌ c s) = code c ∷ bytes s

abbrev pub Cfg : Type 0 → Type 0
Cfg A = AttributeMap → Result (A × AttributeMap)

abbrev from {ℓ} :
    {A : Type 0} {B : Type ℓ} → Result (A × AttributeMap) → (A → AttributeMap → Result B) → Result B
from (ok (a, m)) k = k a m
from (throw e) k = throw e

infixl 5 ◌>>=◌ ◌>>◌
unfoldable pub ◌>>=◌ : {A B : Type 0} → Cfg A → (A → Cfg B) → Cfg B
◌>>=◌ p k m = from (p m) k

abbrev pub ◌>>◌ : {B : Type 0} → Cfg (Unit {0}) → Cfg B → Cfg B
p >> k = p >>= λ _. k

unfoldable pub pure : {A : Type 0} → A → Cfg A
pure a m = ok (a, m)

lifted : {A : Type 0} → Result A → Cfg A
lifted (ok a) m = ok (a, m)
lifted (throw e) m = throw e

unfoldable pub lift : {A : Type 0} → Result A → Cfg A
unfolding lifted
lift r m = lifted r m

unfoldable pub ask_string : String → String → Cfg Bytes
unfolding get_attribute_string
ask_string name key m = get_attribute_string (some (bytes name)) (some (bytes key)) m

unfoldable pub ask_int : String → String → Cfg ℕ
unfolding get_attribute_int
ask_int name key m = get_attribute_int (some (bytes name)) (some (bytes key)) m

-- What the configuration `m` has for a key, as a text and as an `int`.
abbrev pub text_at : AttributeMap → String → String → Bytes
text_at m name key = attribute (bytes name) (bytes key) m

abbrev pub int_at : AttributeMap → String → String → ℕ
int_at m name key = to_int (strtol (c_str (text_at m name key)))

-- Two maps that answer alike.
abbrev pub Alike : AttributeMap → AttributeMap → Type 0
Alike m m0 = (n k : Bytes) → attribute n k m ≡ attribute n k m0

-- From any map that answers as `m0` does, the code ends with `a` and leaves one that does, too.
unfoldable pub Gives : {A : Type 0} → AttributeMap → Cfg A → A → Type 0
Gives m0 p a =
    (m : AttributeMap) → Alike m m0 → (m' : AttributeMap) × Alike m' m0 × (p m ≡ ok (a, m'))

pub Gives-bind :
    {A B : Type 0} (m0 : AttributeMap) (p : Cfg A) (k : A → Cfg B) (a : A) (b : B)
    → Gives m0 p a
    → Gives m0 (k a) b
    → Gives m0 (p >>= k) b
unfolding Gives ◌>>=◌
Gives-bind m0 p k a b first rest m h =
    let (m1, h1, e1) = first m h in
    let (m2, h2, e2) = rest m1 h1 in (m2, h2, ap (λ r. from r k) e1 ∙ e2)

pub Gives-pure : {A : Type 0} (m0 : AttributeMap) (a : A) → Gives m0 (pure a) a
unfolding Gives pure
Gives-pure m0 a m h = (m, h, refl)

pub Gives-lift :
    {A : Type 0} (m0 : AttributeMap) (r : Result A) (a : A) → r ≡ ok a → Gives m0 (lift r) a
unfolding Gives lift lifted
Gives-lift m0 r a e m h = (m, h, ap (λ x. lifted x m) e)

-- The map in which an entry was asked for.
abbrev made : Bytes → Bytes → AttributeMap → AttributeMap
made name key m = insert name (insert key (attribute name key m) (found [] (find name m))) m

pub Gives-ask_string :
    (m0 : AttributeMap) (name key : String) → Gives m0 (ask_string name key) (text_at m0 name key)
unfolding Gives ask_string get_attribute_string
Gives-ask_string m0 name key m h = (
  made (bytes name) (bytes key) m,
  (λ n k. attribute-made n k (bytes name) (bytes key) m ∙ h n k),
  ap (λ (v : Bytes). ok (v, made (bytes name) (bytes key) m)) (h (bytes name) (bytes key)),
)

pub Gives-ask_int :
    (m0 : AttributeMap) (name key : String) → Gives m0 (ask_int name key) (int_at m0 name key)
unfolding Gives ask_int get_attribute_int get_attribute_string
Gives-ask_int m0 name key m h = (
  made (bytes name) (bytes key) m,
  (λ n k. attribute-made n k (bytes name) (bytes key) m ∙ h n k),
  ap (λ (v : Bytes). ok (to_int (strtol (c_str v)), made (bytes name) (bytes key) m))
      (h (bytes name) (bytes key)),
)

-- The same, for code that goes on.
pub Gives-then :
    {A B : Type 0} (m0 : AttributeMap) (r : Result A) (k : A → Cfg B) (a : A) (b : B)
    → r ≡ ok a
    → Gives m0 (k a) b
    → Gives m0 (lift r >>= k) b
Gives-then m0 r k a b e rest = Gives-bind m0 (lift r) k a b (Gives-lift m0 r a e) rest

pub Gives-string :
    {B : Type 0} (m0 : AttributeMap) (name key : String) (k : Bytes → Cfg B) (b : B)
    → Gives m0 (k (text_at m0 name key)) b
    → Gives m0 (ask_string name key >>= k) b
Gives-string m0 name key k b rest =
    Gives-bind m0 (ask_string name key) k (text_at m0 name key) b (Gives-ask_string m0 name key)
      rest

pub Gives-int :
    {B : Type 0} (m0 : AttributeMap) (name key : String) (k : ℕ → Cfg B) (b : B)
    → Gives m0 (k (int_at m0 name key)) b
    → Gives m0 (ask_int name key >>= k) b
Gives-int m0 name key k b rest =
    Gives-bind m0 (ask_int name key) k (int_at m0 name key) b (Gives-ask_int m0 name key) rest

-- What it means at the map itself.
pub Gives-run :
    {A : Type 0} (m0 : AttributeMap) (p : Cfg A) (a : A)
    → Gives m0 p a
    → (after : AttributeMap) × Alike after m0 × (p m0 ≡ ok (a, after))
unfolding Gives
Gives-run m0 p a g = g m0 (λ n k. refl)
