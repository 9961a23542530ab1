-- ===== src/Redirect/Macos/Assigned.antt =====
-- Servers that are assigned to services, one after the other.
use voindns_desktop.Base.{
  ◌≡◌, refl, sym, ◌∙◌, ap, true, false, Bool-cases, inl, inr, List, [], ◌∷◌, map, Text, text_eq,
  text_eq_iff, if◌then◌else◌, arith, elem,
}

-- What stands for a service after these assignments, one after the other.
abbrev pub assigned : List (Text × List Text) → Text → List Text → List Text
assigned [] t now = now
assigned ((svc, v) ∷ rest) t now = assigned rest t (if text_eq t svc then v else now)

abbrev pub each : (Text → List Text) → List Text → List (Text × List Text)
each f services = map (λ s. (s, f s)) services

text_eq_apart : (s t : Text) → text_eq s t ≡ false → text_eq t s ≡ false
text_eq_apart s t h = elim (Bool-cases (text_eq t s)) [
  | inl e ↦ absurd (cc ((text_eq_iff s t).1 (sym ((text_eq_iff t s).0 e)), h))
  | inr f ↦ f
]

pub each-agree :
    (f g : Text → List Text) (svc : Text) (services : List Text)
    → elem svc services ≡ false
    → ((t : Text) → text_eq t svc ≡ false → f t ≡ g t)
    → each f services ≡ each g services
unfolding elem
each-agree f g svc [] h agree = refl
each-agree f g svc (s ∷ services) h agree = elim (Bool-cases (text_eq svc s)) [
  | inl e ↦ absurd (ground (arith, e, h))
  | inr e ↦ rw (agree s (text_eq_apart svc s e), each-agree f g svc services (rw e at h) agree) refl
]

each_same :
    (f : Text → List Text) (services : List Text) (t : Text)
    → assigned (each f services) t (f t) ≡ f t
each_same f [] t = refl
each_same f (s ∷ services) t = elim (Bool-cases (text_eq t s)) [
  | inl e ↦
      rw (e, assigned)
        (ap (assigned (each f services) t) (ap f (sym ((text_eq_iff t s).0 e)))
          ∙ each_same f services t)
  | inr e ↦ rw (e, assigned) (each_same f services t)
]

each_in :
    (f : Text → List Text) (services : List Text) (t : Text) (now : List Text)
    → elem t services ≡ true
    → assigned (each f services) t now ≡ f t
unfolding elem
each_in f [] t now h = absurd cc
each_in f (s ∷ services) t now h = elim (Bool-cases (text_eq t s)) [
  | inl e ↦
      rw (e, assigned)
        (ap (assigned (each f services) t) (ap f (sym ((text_eq_iff t s).0 e)))
          ∙ each_same f services t)
  | inr e ↦ rw (e, assigned) (each_in f services t now (rw e at h))
]

each_out :
    (f : Text → List Text) (services : List Text) (t : Text) (now : List Text)
    → elem t services ≡ false
    → assigned (each f services) t now ≡ now
unfolding elem
each_out f [] t now h = refl
each_out f (s ∷ services) t now h = elim (Bool-cases (text_eq t s)) [
  | inl e ↦ absurd (ground (arith, e, h))
  | inr e ↦ rw (e, assigned) (each_out f services t now (rw e at h))
]

-- what is assigned to the services of a list, in one step
pub each_lem :
    (f : Text → List Text) (services : List Text) (t : Text) (now : List Text)
    → assigned (each f services) t now ≡ (if elem t services then f t else now)
each_lem f services t now = elim (Bool-cases (elem t services)) [
  | inl e ↦ rw e (each_in f services t now e)
  | inr e ↦ rw e (each_out f services t now e)
]
