-- ===== src/ModelMap/Dedup.antt =====
-- The registry of slots: a slot belongs to one (provider, model) pair and lies in the tracker.
use sturnus.Prelude.{
  ℕ, ◌+◌, ◌<◌, ◌≡◌, refl, String, Option, none, some, arith, string_eq, pair_eq, length,
  length-append,
}
use sturnus.Prelude.Dict.{lookup, insert, lookup-insert, lookup-insert_self}
use sturnus.F64.{F64}
use sturnus.Tracker.{Tracker, register}
use sturnus.ModelMap.{Registry, slot_for, slot_from}

module _ {F : Type 0} where
  abbrev pub Registered : Registry F → String × String → ℕ → Type 0
  Registered r key index = lookup key r.dedup ≡ some index

  pub record IsRegistry (r : Registry F) : Type 0 where
    pub in_tracker :
        (key : String × String) (i : ℕ) → Registered r key i → i < length r.tracker.stats
    pub injective : (j k : String × String) (i : ℕ) → Registered r j i → Registered r k i → j ≡ k

  -- No slot is lost or changes hands.
  pub record Extends (r s : Registry F) : Type 0 where
    pub kept : (key : String × String) (i : ℕ) → Registered r key i → Registered s key i

  pub Extends-refl : (r : Registry F) → Extends r r
  Extends-refl r = record { kept = λ key i e. e }

  pub Extends-trans : (r s t : Registry F) → Extends r s → Extends s t → Extends r t
  Extends-trans r s t a b = record { kept = λ key i e. b.kept key i (a.kept key i e) }

module _ {F : Type 0} ⦃d : F64 F⦄ (r : Registry F) (key : String × String) where
  abbrev next : Registry F × ℕ
  next = slot_for r key

  fresh-IsRegistry :
      (t : Tracker F)
      → lookup key r.dedup ≡ none
      → IsRegistry r
      → length t.stats ≡ length r.tracker.stats + 1
      → IsRegistry (record { dedup = insert key (length r.tracker.stats) r.dedup; tracker = t })
  fresh-IsRegistry t absent v longer = record {
    in_tracker = λ k i e.
        ground (arith, lookup-insert key k (length r.tracker.stats) r.dedup, v.in_tracker k i);
    injective = λ j k i e f. ground (
      arith,
      lookup-insert key j (length r.tracker.stats) r.dedup,
      lookup-insert key k (length r.tracker.stats) r.dedup,
      v.in_tracker j i,
      v.in_tracker k i,
      v.injective j k i,
    );
  }

  slot_from_lem :
      (entry : Option ℕ)
      → lookup key r.dedup ≡ entry
      → IsRegistry r
      → IsRegistry (slot_from r key entry).0
        × Extends r (slot_from r key entry).0
        × Registered (slot_from r key entry).0 key (slot_from r key entry).1
  unfolding slot_from register
  slot_from_lem (some i) found v = (v, Extends-refl r, found)
  slot_from_lem none absent v = (
    fresh-IsRegistry _ absent v (length-append r.tracker.stats _),
    record { kept = λ k i e. ground (arith, lookup-insert key k (length r.tracker.stats) r.dedup) },
    lookup-insert_self key (length r.tracker.stats) r.dedup,
  )

  -- A slot for a key: the registry stays well-formed, keeps its slots and has one for the key.
  pub slot_for_lem :
      IsRegistry r
      → IsRegistry (slot_for r key).0
        × Extends r (slot_for r key).0
        × Registered (slot_for r key).0 key (slot_for r key).1
  unfolding slot_for
  slot_for_lem v = slot_from_lem (lookup key r.dedup) refl v
