-- ===== src/Tests/Auth.antt =====
-- A mapping of two subjects, and an authenticator over it.
use canterbury.Base.{none, List, [], ◌∷◌, Bytes, codes, ◌≡◌, ◌↔◌, refl, All, ◌=s=◌}
use canterbury.Errors.{ok}
use canterbury.Strings.Trim.{trimming}
use canterbury.Context.{Principal, background}
use canterbury.Auth.Hash.{hash_subject}
use canterbury.Auth.ScopeMapper.{MappingSubject, SubjectKey, Table, find, add_mapping, add_mappings}
use canterbury.Auth.ScopeMapper.Adding.{IsComplete, HasDistinctKeys, add_mappings_iff}
use canterbury.Auth.Authenticator.{Authenticator, TokenClaims, authenticate}
use canterbury.Auth.Authenticator.Laws.{IsResolved, authenticate_iff}

abbrev same_bytes : Bytes → Bytes
same_bytes s = s

abbrev issuer : Bytes
issuer = codes "https://issuer"

abbrev alice : MappingSubject
alice = record { issuer = issuer; subject = codes " alice"; scopes = codes "team" ∷ [] }

abbrev bob : MappingSubject
bob = record { issuer = issuer; subject = codes "bob"; scopes = codes "guest" ∷ [] }

abbrev subjects : List MappingSubject
subjects = alice ∷ bob ∷ []

abbrev key : Bytes → SubjectKey
key subject = record { issuer = issuer; subject = subject }

abbrev table : Table
table = (key (codes "bob"), codes "guest" ∷ []) ∷ (key (codes "alice"), codes "team" ∷ []) ∷ []

loaded : add_mappings [] subjects ≡ ok table
unfolding add_mappings add_mapping find trimming ◌=s=◌
loaded = refl

add_mappings_iff_example :
    ((t : Table) × (add_mappings [] subjects ≡ ok t))
    ↔ (All IsComplete subjects × HasDistinctKeys subjects)
add_mappings_iff_example = add_mappings_iff subjects

abbrev claims : TokenClaims
claims = record {
  issuer = issuer;
  subject = codes "alice";
  audiences = codes "vault" ∷ [];
  expires_at = 1;
}

abbrev authenticator : Authenticator
authenticator = record {
  issuer = issuer;
  audience = codes "vault";
  scope_mapper = record { source_checksum = codes "sum"; lookup = table };
  verifier = λ ctx token requirements. ok claims;
}

abbrev principal : Principal
principal = record {
  issuer = issuer;
  subject = codes "alice";
  subject_hash = hash_subject same_bytes issuer (codes "alice");
  scopes = codes "team" ∷ [];
  mapping_checksum = codes "sum";
}

authenticate_iff_example :
    (authenticate same_bytes authenticator background (codes "token") ≡ ok principal) ↔ (
      (c : TokenClaims) × (background.cancelled ≡ none)
      × (ok claims ≡ ok c)
      × IsResolved same_bytes authenticator c principal)
authenticate_iff_example =
    authenticate_iff same_bytes authenticator background (codes "token") principal
