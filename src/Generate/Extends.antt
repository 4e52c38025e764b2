-- ===== src/Generate/Extends.antt =====
-- ums-generated/build/generate_interfaces.ts: which interfaces `commonData` extends.
use lp_clients.Base.{
  ◌≡◌, refl, sym, ap, ◌∙◌, Bool, true, false, ◌||◌, Option, none, some, List, [], ◌∷◌, ◌++◌, subst,
  inl, inr, ◌≢◌, String, str_eq, eq_iff, if◌then◌else◌, arith, Bool-cases, Option-cases, is_some,
  All, All-map, ok,
}
use lp_clients.Generate.Structures.{
  Interface, SourceFiles, find_interface, find_enum, get_interface,
}
use lp_clients.Generate.Common.{extend_if_bare, extend_events}
use lp_clients.Generate.Lookup.{
  Declared, find_interface-extend_first, find_interface-extend_first-other, find_enum-extend_first,
}

abbrev pub member_text : String → List String → Bool
member_text n [] = false
member_text n (m ∷ ms) = if str_eq m n then true else member_text n ms

abbrev pub parents : String → List String → List String
parents parent [] = parent ∷ []
parents parent (e ∷ es) = e ∷ es

-- An interface that extends nothing gets a parent, if it is one of the events.
abbrev pub inherits : Bool → String → Option Interface → Option Interface
inherits false parent o = o
inherits true parent none = none
inherits true parent (some i) = some (record i { extends = parents parent i.extends })

parents_again :
    (parent : String) (es : List String) → parents parent (parents parent es) ≡ parents parent es
parents_again parent [] = refl
parents_again parent (e ∷ es) = refl

inherits-inherits :
    (a b : Bool) (parent : String) (o : Option Interface)
    → inherits b parent (inherits a parent o) ≡ inherits (a || b) parent o
inherits-inherits false b parent o = refl
inherits-inherits true false parent o = refl
inherits-inherits true true parent none = refl
inherits-inherits true true parent (some i) =
    ap (λ es. some (record i { extends = es })) (parents_again parent i.extends)

inherits_some :
    (a : Bool) (parent : String) (o : Option Interface) → is_some (inherits a parent o) ≡ is_some o
inherits_some false parent o = refl
inherits_some true parent none = refl
inherits_some true parent (some i) = refl

parents_bare :
    (parent : String) (es : List String) → es ≡ [] → es ++ parent ∷ [] ≡ parents parent es
parents_bare parent [] h = refl
parents_bare parent (e ∷ es) h = cc

parents_other :
    (parent : String) (es : List String) (d : String) (ds : List String)
    → es ≡ d ∷ ds
    → es ≡ parents parent es
parents_other parent [] d ds h = cc
parents_other parent (e ∷ es) d ds h = refl

true_not_false : true ≢ false
true_not_false h = cc

member_either :
    (n m : String) (ms : List String)
    → (member_text n (m ∷ []) || member_text n ms) ≡ member_text n (m ∷ ms)
member_either n m ms = ground arith

module _ (lib : SourceFiles) where
  open lib use {File, declarations, add_extends, declarations-add_extends}

  -- What one file has of another, whose interfaces may be extended.
  pub record Extends (names : List String) (parent : String) (f g : File) : Type 0 where
    pub interfaces :
        (n : String)
        → find_interface n (declarations g)
          ≡ inherits (member_text n names) parent (find_interface n (declarations f))
    pub enums : (n : String) → find_enum n (declarations g) ≡ find_enum n (declarations f)

  extend_if_bare-name :
      (name parent : String) (i : Interface) (es : List String) (f : File)
      → i.extends ≡ es
      → find_interface name (declarations f) ≡ some i
      → find_interface name (declarations (extend_if_bare lib name parent es f).1)
        ≡ inherits true parent (find_interface name (declarations f))
  extend_if_bare-name name parent i [] f x h =
      rw
        (
          declarations-add_extends name parent f,
          find_interface-extend_first name parent (declarations f),
          h,
        )
        (ap (λ es. some (record i { extends = es })) (parents_bare parent i.extends x))
  extend_if_bare-name name parent i (e ∷ es) f x h =
      rw h (ap (λ es. some (record i { extends = es })) (parents_other parent i.extends e es x))

  extend_if_bare-other :
      (name parent : String) (es : List String) (n : String) (f : File)
      → str_eq name n ≡ false
      → find_interface n (declarations (extend_if_bare lib name parent es f).1)
        ≡ find_interface n (declarations f)
  extend_if_bare-other name parent [] n f h =
      rw (declarations-add_extends name parent f)
        (find_interface-extend_first-other n name parent (declarations f) h)
  extend_if_bare-other name parent (e ∷ es) n f h = refl

  extend_if_bare-enums :
      (name parent : String) (es : List String) (n : String) (f : File)
      → find_enum n (declarations (extend_if_bare lib name parent es f).1)
        ≡ find_enum n (declarations f)
  extend_if_bare-enums name parent [] n f =
      rw (declarations-add_extends name parent f)
        (find_enum-extend_first n name parent (declarations f))
  extend_if_bare-enums name parent (e ∷ es) n f = refl

  extend_if_bare-ok :
      (name parent : String) (es : List String) (f : File)
      → extend_if_bare lib name parent es f ≡ (ok tt, (extend_if_bare lib name parent es f).1)
  extend_if_bare-ok name parent [] f = refl
  extend_if_bare-ok name parent (e ∷ es) f = refl

  extend_if_bare-Extends :
      (name parent : String) (i : Interface) (f : File)
      → find_interface name (declarations f) ≡ some i
      → Extends (name ∷ []) parent f (extend_if_bare lib name parent i.extends f).1
  extend_if_bare-Extends name parent i f h = record {
    interfaces = λ n. elim (Bool-cases (str_eq name n)) [
      | inl e ↦ rw e (
          subst
            (λ m.
              find_interface m (declarations (extend_if_bare lib name parent i.extends f).1)
              ≡ inherits true parent (find_interface m (declarations f)))
            ((eq_iff name n).0 e) (extend_if_bare-name name parent i i.extends f refl h))
      | inr e ↦ rw e (extend_if_bare-other name parent i.extends n f e)
    ];
    enums = λ n. extend_if_bare-enums name parent i.extends n f;
  }

  Extends-cons :
      (name : String) (names : List String) (parent : String) (f g h : File)
      → Extends (name ∷ []) parent f g
      → Extends names parent g h
      → Extends (name ∷ names) parent f h
  Extends-cons name names parent f g h a b = record {
    interfaces = λ n.
        b.interfaces n
        ∙ ap (inherits (member_text n names) parent) (a.interfaces n)
        ∙ inherits-inherits (member_text n (name ∷ [])) (member_text n names) parent _
        ∙ ap (λ t. inherits t parent (find_interface n (declarations f)))
            (member_either n name names);
    enums = λ n. b.enums n ∙ a.enums n;
  }

  pub Extends-declared :
      (names : List String) (parent : String) (f g : File)
      → Extends names parent f g
      → (n : String)
      → is_some (find_interface n (declarations g)) ≡ is_some (find_interface n (declarations f))
  Extends-declared names parent f g a n =
      ap is_some (a.interfaces n)
      ∙ inherits_some (member_text n names) parent (find_interface n (declarations f))

  extend_events-cons :
      (name : String) (names : List String) (parent : String) (i : Interface) (f : File)
      → find_interface name (declarations f) ≡ some i
      → extend_events lib (name ∷ names) parent f
        ≡ extend_events lib names parent (extend_if_bare lib name parent i.extends f).1
  unfolding extend_events get_interface
  extend_events-cons name names parent i f e =
      rw (e, extend_if_bare-ok name parent i.extends f) refl

  -- If all the interfaces are there, those among them that extend nothing get the parent.
  pub extend_events-Extends :
      (names : List String) (parent : String) (f : File)
      → All (Declared (declarations f)) names
      → (g : File) × (extend_events lib names parent f ≡ (ok tt, g)) × Extends names parent f g
  unfolding extend_events get_interface
  extend_events-Extends [] parent f h =
      (f, refl, record { interfaces = λ n. refl; enums = λ n. refl })
  extend_events-Extends (name ∷ names) parent f (d, h) =
      elim (Option-cases (find_interface name (declarations f))) [
        | inl e ↦ absurd (true_not_false (sym d ∙ ap is_some e))
        | inr (i, e) ↦
            let a : Extends (name ∷ []) parent f (extend_if_bare lib name parent i.extends f).1 =
              extend_if_bare-Extends name parent i f e in
            let rest : (g : File) × (extend_events lib names parent
                    (extend_if_bare lib name parent i.extends f).1
                  ≡ (ok tt, g))
                × Extends names parent (extend_if_bare lib name parent i.extends f).1 g =
              extend_events-Extends names parent _
                (All-map (λ n d. Extends-declared (name ∷ []) parent f _ a n ∙ d) names h) in
            (
              rest.0,
              extend_events-cons name names parent i f e ∙ rest.1,
              Extends-cons name names parent f _ rest.0 a rest.2,
            )
      ]

  -- And only then it succeeds.
  pub extend_events-Declared :
      (names : List String) (parent : String) (f g : File)
      → extend_events lib names parent f ≡ (ok tt, g)
      → All (Declared (declarations f)) names
  unfolding extend_events get_interface
  extend_events-Declared [] parent f g h = tt
  extend_events-Declared (name ∷ names) parent f g h =
      elim (Option-cases (find_interface name (declarations f))) [
        | inl e ↦ absurd (ground (arith, e))
        | inr (i, e) ↦
            let rest : All (Declared (declarations (extend_if_bare lib name parent i.extends f).1))
                names =
              extend_events-Declared names parent _ g
                (sym (extend_events-cons name names parent i f e) ∙ h) in
            (
              ap is_some e,
              All-map
                  (λ n d.
                    sym (
                      Extends-declared (name ∷ []) parent f _
                        (extend_if_bare-Extends name parent i f e) n)
                    ∙ d)
                  names rest,
            )
      ]
