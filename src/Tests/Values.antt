-- ===== src/Tests/Values.antt =====
-- Equality of Python values xs a Boolean, for the platform of the tests.
use action_lineage.Base.{
  ℕ, ◌≡◌, refl, ap, ap₂, Bool, true, false, ◌&&◌, &&-true, List, [], ◌∷◌, ◌==◌, ==_iff, str_eq,
  eq_iff, eq_refl, ℤ, arith,
}
use action_lineage.Domain.Value.{
  Value, null, bool, int, float, str, bytes, time, seq, map, other, Datetime, naive, aware,
  Container, plain, frozen, Key, text, non_text, Items, nil, cons, Fields, end, field,
}

unfoldable pub bool_eq : Bool → Bool → Bool
bool_eq true true = true
bool_eq false false = true
bool_eq _ _ = false

unfoldable pub int_eq : ℤ → ℤ → Bool
int_eq (ℤ.pos a) (ℤ.pos b) = a == b
int_eq (ℤ.negsuc a) (ℤ.negsuc b) = a == b
int_eq _ _ = false

unfoldable pub list_eq : List ℕ → List ℕ → Bool
list_eq [] [] = true
list_eq (a ∷ xs) (b ∷ ys) = (a == b) && list_eq xs ys
list_eq _ _ = false

unfoldable pub time_eq : Datetime → Datetime → Bool
time_eq (naive a) (naive b) = a == b
time_eq (aware a) (aware b) = a == b
time_eq _ _ = false

unfoldable pub container_eq : Container → Container → Bool
container_eq plain plain = true
container_eq frozen frozen = true
container_eq _ _ = false

unfoldable pub key_eq : Key → Key → Bool
key_eq (text a) (text b) = str_eq a b
key_eq non_text non_text = true
key_eq _ _ = false

unfoldable mutual
  unfolding bool_eq int_eq list_eq time_eq container_eq key_eq

  pub value_eq : Value → Value → Bool
  value_eq null null = true
  value_eq (bool a) (bool b) = bool_eq a b
  value_eq (int a) (int b) = int_eq a b
  value_eq (float a) (float b) = a == b
  value_eq (str a) (str b) = str_eq a b
  value_eq (bytes a) (bytes b) = list_eq a b
  value_eq (time a) (time b) = time_eq a b
  value_eq (seq c a) (seq d b) = container_eq c d && items_eq a b
  value_eq (map c a) (map d b) = container_eq c d && fields_eq a b
  value_eq (other a) (other b) = str_eq a b
  value_eq _ _ = false

  pub items_eq : Items → Items → Bool
  items_eq nil nil = true
  items_eq (cons a xs) (cons b ys) = value_eq a b && items_eq xs ys
  items_eq _ _ = false

  pub fields_eq : Fields → Fields → Bool
  fields_eq end end = true
  fields_eq (field k a xs) (field l b ys) = key_eq k l && (value_eq a b && fields_eq xs ys)
  fields_eq _ _ = false

bool_eq_sound : (a b : Bool) → bool_eq a b ≡ true → a ≡ b
unfolding bool_eq
bool_eq_sound true true h = refl
bool_eq_sound false false h = refl
bool_eq_sound _ _ h = cc

int_eq_sound : (a b : ℤ) → int_eq a b ≡ true → a ≡ b
unfolding int_eq
int_eq_sound (ℤ.pos a) (ℤ.pos b) h = ap ℤ.pos ((==_iff a b).0 h)
int_eq_sound (ℤ.negsuc a) (ℤ.negsuc b) h = ap ℤ.negsuc ((==_iff a b).0 h)
int_eq_sound _ _ h = cc

list_eq_sound : (a b : List ℕ) → list_eq a b ≡ true → a ≡ b
unfolding list_eq
list_eq_sound [] [] h = refl
list_eq_sound (a ∷ xs) (b ∷ ys) h =
    let (p, q) = &&-true (a == b) (list_eq xs ys) h in
    ap₂ ◌∷◌ ((==_iff a b).0 p) (list_eq_sound xs ys q)
list_eq_sound _ _ h = cc

time_eq_sound : (a b : Datetime) → time_eq a b ≡ true → a ≡ b
unfolding time_eq
time_eq_sound (naive a) (naive b) h = ap naive ((==_iff a b).0 h)
time_eq_sound (aware a) (aware b) h = ap aware ((==_iff a b).0 h)
time_eq_sound _ _ h = cc

container_eq_sound : (a b : Container) → container_eq a b ≡ true → a ≡ b
unfolding container_eq
container_eq_sound plain plain h = refl
container_eq_sound frozen frozen h = refl
container_eq_sound _ _ h = cc

key_eq_sound : (a b : Key) → key_eq a b ≡ true → a ≡ b
unfolding key_eq
key_eq_sound (text a) (text b) h = ap text ((eq_iff a b).0 h)
key_eq_sound non_text non_text h = refl
key_eq_sound _ _ h = cc

mutual
  unfolding value_eq

  pub value_eq_sound : (v w : Value) → value_eq v w ≡ true → v ≡ w
  value_eq_sound null null h = refl
  value_eq_sound (bool a) (bool b) h = ap bool (bool_eq_sound a b h)
  value_eq_sound (int a) (int b) h = ap int (int_eq_sound a b h)
  value_eq_sound (float a) (float b) h = ap float ((==_iff a b).0 h)
  value_eq_sound (str a) (str b) h = ap str ((eq_iff a b).0 h)
  value_eq_sound (bytes a) (bytes b) h = ap bytes (list_eq_sound a b h)
  value_eq_sound (time a) (time b) h = ap time (time_eq_sound a b h)
  value_eq_sound (seq c a) (seq d b) h =
      let (p, q) = &&-true (container_eq c d) (items_eq a b) h in
      ap₂ seq (container_eq_sound c d p) (items_eq_sound a b q)
  value_eq_sound (map c a) (map d b) h =
      let (p, q) = &&-true (container_eq c d) (fields_eq a b) h in
      ap₂ map (container_eq_sound c d p) (fields_eq_sound a b q)
  value_eq_sound (other a) (other b) h = ap other ((eq_iff a b).0 h)
  value_eq_sound _ _ h = cc

  items_eq_sound : (v w : Items) → items_eq v w ≡ true → v ≡ w
  items_eq_sound nil nil h = refl
  items_eq_sound (cons a xs) (cons b ys) h =
      let (p, q) = &&-true (value_eq a b) (items_eq xs ys) h in
      ap₂ cons (value_eq_sound a b p) (items_eq_sound xs ys q)
  items_eq_sound _ _ h = cc

  fields_eq_sound : (v w : Fields) → fields_eq v w ≡ true → v ≡ w
  fields_eq_sound end end h = refl
  fields_eq_sound (field k a xs) (field l b ys) h =
      let (p, q) = &&-true (key_eq k l) (value_eq a b && fields_eq xs ys) h in
      let (r, s) = &&-true (value_eq a b) (fields_eq xs ys) q in
      λ i. field (key_eq_sound k l p i) (value_eq_sound a b r i) (fields_eq_sound xs ys s i)
  fields_eq_sound _ _ h = cc

ℕ_eq_refl : (n : ℕ) → (n == n) ≡ true
ℕ_eq_refl n = ground arith

list_eq_refl : (a : List ℕ) → list_eq a a ≡ true
unfolding list_eq
list_eq_refl [] = refl
list_eq_refl (a ∷ xs) = rw (ℕ_eq_refl a, list_eq_refl xs)

container_eq_refl : (c : Container) → container_eq c c ≡ true
unfolding container_eq
container_eq_refl plain = refl
container_eq_refl frozen = refl

key_eq_refl : (k : Key) → key_eq k k ≡ true
unfolding key_eq
key_eq_refl (text s) = eq_refl s
key_eq_refl non_text = refl

mutual
  unfolding value_eq bool_eq int_eq time_eq

  pub value_eq_refl : (v : Value) → value_eq v v ≡ true
  value_eq_refl null = refl
  value_eq_refl (bool true) = refl
  value_eq_refl (bool false) = refl
  value_eq_refl (int (ℤ.pos n)) = ℕ_eq_refl n
  value_eq_refl (int (ℤ.negsuc n)) = ℕ_eq_refl n
  value_eq_refl (float n) = ℕ_eq_refl n
  value_eq_refl (str s) = eq_refl s
  value_eq_refl (bytes b) = list_eq_refl b
  value_eq_refl (time (naive n)) = ℕ_eq_refl n
  value_eq_refl (time (aware n)) = ℕ_eq_refl n
  value_eq_refl (seq c xs) = rw (container_eq_refl c, items_eq_refl xs)
  value_eq_refl (map c fs) = rw (container_eq_refl c, fields_eq_refl fs)
  value_eq_refl (other s) = eq_refl s

  items_eq_refl : (xs : Items) → items_eq xs xs ≡ true
  items_eq_refl nil = refl
  items_eq_refl (cons x xs) = rw (value_eq_refl x, items_eq_refl xs)

  fields_eq_refl : (fs : Fields) → fields_eq fs fs ≡ true
  fields_eq_refl end = refl
  fields_eq_refl (field k v fs) = rw (key_eq_refl k, value_eq_refl v, fields_eq_refl fs)
