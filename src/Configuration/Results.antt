-- ===== src/Configuration/Results.antt =====
-- What the functions that load a configuration keep of it.
use mathlib.Core.Option
use fast_dds_spy.Prelude.{
  String, true, false, ◌≡◌, subst, Option, none, some, Option-cases, inl, inr,
}
use fast_dds_spy.External.Topics.{Topics}
use fast_dds_spy.External.YamlReading.{YamlReading}
use fast_dds_spy.Configuration.{Configuration}
use fast_dds_spy.Configuration.Loading.{◌>>=◌, load_tag, load_section}

-- What holds of the result, if there is one.
unfoldable pub Ends : {A : Type 0} → (A → Type 0) → Option A → Type 0
Ends P none = Unit
Ends P (some a) = P a

module _ {A B : Type 0} (P : A → Type 0) where
  pub Ends->>= :
      (Q : B → Type 0) (m : Option A) (k : A → Option B)
      → Ends P m
      → ((a : A) → P a → Ends Q (k a))
      → Ends Q (m >>= k)
  unfolding Ends ◌>>=◌
  Ends->>= Q none k h next = tt
  Ends->>= Q (some a) k h next = next a h

pub Ends-map :
    {A B : Type 0} (P : B → Type 0) (f : A → B) (m : Option A)
    → ((a : A) → P (f a))
    → Ends P (Option.map f m)
unfolding Ends
Ends-map P f none h = tt
Ends-map P f (some a) h = h a

pub Ends-some : {A : Type 0} (P : A → Type 0) (m : Option A) {a : A} → Ends P m → m ≡ some a → P a
unfolding Ends
Ends-some P m h e = subst (Ends P) e h

pub anything : {A : Type 0} (m : Option A) → Ends (λ a. Unit {0}) m
unfolding Ends
anything none = tt
anything (some a) = tt

module _ ⦃T : Topics⦄ ⦃R : YamlReading⦄ where
  -- A predicate that the store of a value keeps holds after an optional tag.
  pub load_tag-Ends :
      {A C : Type 0} (P : C → Type 0) (get : R.Yaml → String → Option A) (store : C → A → C)
      (yml : R.Yaml) (tag : String) (c : C)
      → ((a : A) → P (store c a))
      → P c
      → Ends P (load_tag get store yml tag c)
  unfolding Ends load_tag ◌>>=◌
  load_tag-Ends P get store yml tag c stored kept = elim (Option-cases (R.is_tag_present yml tag)) [
    | inl e ↦ rw (e, load_tag) tt
    | inr (true, e) ↦ rw (e, load_tag) (Ends-map P (store c) (get yml tag) stored)
    | inr (false, e) ↦ rw (e, load_tag) kept
  ]

  pub load_section-Ends :
      (P : Configuration → Type 0) (load : R.Yaml → Configuration → Option Configuration)
      (yml : R.Yaml) (tag : String) (c : Configuration)
      → ((section : R.Yaml) → Ends P (load section c))
      → P c
      → Ends P (load_section load yml tag c)
  unfolding Ends load_section ◌>>=◌
  load_section-Ends P load yml tag c loaded kept = elim (Option-cases (R.is_tag_present yml tag)) [
    | inl e ↦ rw (e, load_section) tt
    | inr (false, e) ↦ rw (e, load_section) kept
    | inr (true, e) ↦ elim (Option-cases (R.get_value_in_tag yml tag)) [
      | inl g ↦ rw (e, g, load_section) tt
      | inr (section, g) ↦ rw (e, g, load_section) (loaded section)
    ]
  ]
