-- ===== src/Json/Objects.antt =====
-- Objects as the sources build them: members that are assigned, one after the other, to a null value
-- or to a value that has members.
use asynchronous_messenger.Base.{
  ℕ, String, Bool, true, ◌≡◌, refl, ◌∙◌, ap, Option, List, [], ◌∷◌, ◌==◌, string_eq, if◌then◌else◌,
}
use asynchronous_messenger.Json.{JsonLib, JsonLaws, Value, string_of, bool_of, time_of}

-- The member that was assigned last comes first.
abbrev pub build : {Json : Type 0} → JsonLib Json → Json → List (String × Value) → Json
build lib j [] = j
build lib j ((k, v) ∷ fs) = lib.put (build lib j fs) k v

-- What the last assignment to a member makes of reading it.
abbrev pub assigned {ℓ} : {A : Type ℓ} → (Value → A) → String → List (String × Value) → A → A
assigned f i [] otherwise = otherwise
assigned f i ((k, v) ∷ fs) otherwise = if k == i then f v else assigned f i fs otherwise

module _ {Json : Type 0} (lib : JsonLib Json) (laws : JsonLaws lib) where
  pub build-settable :
      (j : Json) (fs : List (String × Value))
      → lib.is_settable j ≡ true
      → lib.is_settable (build lib j fs) ≡ true
  build-settable j [] s = s
  build-settable j ((k, v) ∷ fs) s = laws.put_settable _ k v (build-settable j fs s)

  pub build-contains :
      (j : Json) (fs : List (String × Value)) (i : String)
      → lib.is_settable j ≡ true
      → lib.contains (build lib j fs) i ≡ assigned (λ v. true) i fs (lib.contains j i)
  build-contains j [] i s = refl
  build-contains j ((k, v) ∷ fs) i s =
      laws.contains_put _ k i v (build-settable j fs s)
      ∙ ap (λ (t : Bool). if k == i then true else t) (build-contains j fs i s)

  pub build-string :
      (j : Json) (fs : List (String × Value)) (i : String)
      → lib.is_settable j ≡ true
      → lib.as_string (build lib j fs) i ≡ assigned string_of i fs (lib.as_string j i)
  build-string j [] i s = refl
  build-string j ((k, v) ∷ fs) i s =
      laws.string_put _ k i v (build-settable j fs s)
      ∙ ap (λ (t : Option String). if k == i then string_of v else t) (build-string j fs i s)

  pub build-bool :
      (j : Json) (fs : List (String × Value)) (i : String)
      → lib.is_settable j ≡ true
      → lib.as_bool (build lib j fs) i ≡ assigned bool_of i fs (lib.as_bool j i)
  build-bool j [] i s = refl
  build-bool j ((k, v) ∷ fs) i s =
      laws.bool_put _ k i v (build-settable j fs s)
      ∙ ap (λ (t : Option Bool). if k == i then bool_of v else t) (build-bool j fs i s)

  pub build-time :
      (j : Json) (fs : List (String × Value)) (i : String)
      → lib.is_settable j ≡ true
      → lib.as_time (build lib j fs) i ≡ assigned time_of i fs (lib.as_time j i)
  build-time j [] i s = refl
  build-time j ((k, v) ∷ fs) i s =
      laws.time_put _ k i v (build-settable j fs s)
      ∙ ap (λ (t : Option ℕ). if k == i then time_of v else t) (build-time j fs i s)

  -- Objects that are built from nothing.
  pub has :
      (fs : List (String × Value)) (i : String)
      → lib.contains (build lib lib.null fs) i ≡ assigned (λ v. true) i fs (lib.contains lib.null i)
  has fs i = build-contains lib.null fs i laws.null_settable

  pub text_at :
      (fs : List (String × Value)) (i : String)
      → lib.as_string (build lib lib.null fs) i ≡ assigned string_of i fs (lib.as_string lib.null i)
  text_at fs i = build-string lib.null fs i laws.null_settable

  pub flag_at :
      (fs : List (String × Value)) (i : String)
      → lib.as_bool (build lib lib.null fs) i ≡ assigned bool_of i fs (lib.as_bool lib.null i)
  flag_at fs i = build-bool lib.null fs i laws.null_settable

  pub time_at :
      (fs : List (String × Value)) (i : String)
      → lib.as_time (build lib lib.null fs) i ≡ assigned time_of i fs (lib.as_time lib.null i)
  time_at fs i = build-time lib.null fs i laws.null_settable
