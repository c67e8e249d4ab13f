-- ===== src/Grant/ApprovalTests.antt =====
-- grants/lifecycle.py: a validator that shortens the sample grant, and the theorems at it.
use astral_project.Base.{
  list_beq, ℕ, String, ◌≡◌, refl, ◌↔◌, Bool, true, List, [], ◌∷◌, ◌==◌, ==_refl, nat_eq, string_eq,
  list_eq, option_eq, pair_eq, Result, ok, Text, Bytes, codes, pos, int_eq,
}
use astral_project.Grant.Types.{Grant, access_mode_eq, export_kind_eq}
use astral_project.Grant.Equal.{export_eq}
use astral_project.Grant.Tests.{sample_grant, zeros, toy_dumps, sample_context}
use astral_project.Grant.Lifecycle.{
  Raised, Validation, create, returned, canonical_changes, sign_and_store, demand, create_signed,
  collect,
}
use astral_project.Grant.Verify.{
  SignedGrant, verify, check_context, canonical_bytes, canonical_dumps, make_signed_grant,
}
use astral_project.Grant.Approval.{create-verify, create_iff}

abbrev toy_sign : ℕ → Bytes → Bytes
toy_sign key message = key ∷ zeros 63

abbrev toy_public : ℕ → ℕ
toy_public key = key

abbrev toy_store :
    SignedGrant → Text → Text → ℕ → List SignedGrant → Result Raised (List SignedGrant)
toy_store signed fingerprint user key database = ok (signed ∷ database)

abbrev shortened : Grant
shortened = record sample_grant { expires_at = pos 180 }

abbrev shortening : Grant → Validation
shortening g = returned (record g { expires_at = pos 180 })

abbrev willing : List String → Result Raised Bool
willing changes = ok true

abbrev signed_shortened : SignedGrant
signed_shortened = record { grant = shortened; signature = 5 ∷ zeros 63 }

abbrev toy_check : ℕ → Bytes → Bytes → Bool
toy_check key signature message = signature == toy_sign key message

create_shortened :
    create toy_sign toy_public toy_dumps toy_store shortening willing sample_grant 5 []
    ≡ ok (signed_shortened, signed_shortened ∷ [])
unfolding create sign_and_store demand create_signed canonical_bytes canonical_dumps
    make_signed_grant canonical_changes collect list_beq
create_shortened = refl

create_iff_example :
    (create toy_sign toy_public toy_dumps toy_store shortening willing sample_grant 5 []
      ≡ ok (signed_shortened, signed_shortened ∷ []))
    ↔ ((c : Grant) × (shortening sample_grant ≡ returned c)
        × (willing (canonical_changes sample_grant c) ≡ ok true)
        × (sign_and_store toy_sign toy_public toy_dumps toy_store shortening willing c 5 []
            ≡ ok (signed_shortened, signed_shortened ∷ [])))
create_iff_example =
    create_iff toy_sign toy_public toy_dumps toy_store shortening willing sample_grant 5 []
      signed_shortened (signed_shortened ∷ [])

toy_correct : (m : Bytes) → toy_check (toy_public 5) (toy_sign 5 m) m ≡ true
toy_correct m = ==_refl (5 ∷ zeros 63)

create-verify_example :
    verify toy_check toy_dumps signed_shortened 5 sample_context
    ≡ check_context shortened sample_context
create-verify_example =
    create-verify toy_sign toy_public toy_dumps toy_store shortening willing toy_check 5 toy_correct
      sample_grant [] signed_shortened (signed_shortened ∷ []) create_shortened sample_context

abbrev next_grant : Grant
next_grant = record sample_grant { grant_id = codes "g2" }

abbrev signed_next : SignedGrant
signed_next = record {
  grant = record next_grant { expires_at = pos 180 };
  signature = 5 ∷ zeros 63;
}
