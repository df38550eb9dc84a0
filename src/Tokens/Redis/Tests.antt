-- ===== src/Tokens/Redis/Tests.antt =====
-- The Redis store at concrete inputs, over the server in memory.
use slaif_connect.Base.{◌≡◌, ◌↔◌, lit, some, [], ◌∷◌, arith, ok}
use slaif_connect.Base.Table
use slaif_connect.Base.Table.{Table}
use slaif_connect.Tokens.Check.{Admits}
use slaif_connect.Tokens.Registry
use slaif_connect.Tokens.Redis
use slaif_connect.Tokens.Redis.{Store, key_for_hash, stringify, json_entries, script_check}
use slaif_connect.Tokens.Redis.InMemory.{in_memory, Cell}
use slaif_connect.Tokens.Redis.Script.{IsCanonical, script_check_iff}
use slaif_connect.Tokens.Redis.Refinement.{
  Holds, SameAnswer, consume_token-refines, text_eq-key_for_hash,
}
use slaif_connect.Tokens.Tests.{
  plain, sample_token, sample_record, sample_expected, sample_registry,
}

abbrev sample_server : Table Cell
sample_server = (key_for_hash (lit "slaif") sample_token, (stringify sample_record, 121000)) ∷ []

abbrev sample_store : Store in_memory plain (lit "slaif") 60000
sample_store = record { server = sample_server; notices = [] }

sample-Holds : Holds in_memory plain (lit "slaif") 60000 2000 sample_registry.records sample_server
unfolding Table.get json_entries
sample-Holds = record {
  view = λ t hash later. ground (arith, text_eq-key_for_hash (lit "slaif") sample_token hash);
  tidy = (tt, tt);
}

sample-IsCanonical : IsCanonical sample_expected
sample-IsCanonical = record {
  scope = λ e. cc;
  session_id = tt;
  hpc = λ e. cc;
  origin = tt;
  metadata = tt;
}

consume_token-refines_example :
    SameAnswer in_memory plain
      (lit "slaif")
      60000
      (Registry.consume_token plain 2000 sample_registry (some sample_token) sample_expected).0
      (Redis.consume_token in_memory plain
        (lit "slaif")
        60000
        2000
        sample_store
        (some sample_token)
        sample_expected).0
    × Holds in_memory plain
        (lit "slaif")
        60000
        2000
        (Registry.consume_token plain 2000 sample_registry
          (some sample_token)
          sample_expected).1.records
        (Redis.consume_token in_memory plain
          (lit "slaif")
          60000
          2000
          sample_store
          (some sample_token)
          sample_expected).1.server
consume_token-refines_example =
    consume_token-refines in_memory plain (lit "slaif") 60000 2000 sample_registry sample_store
      (some sample_token) sample_expected sample-Holds sample-IsCanonical

script_check_iff_example :
    (script_check
        (λ m. m)
        2000
        (record sample_record { metadata = json_entries [] })
        sample_expected
      ≡ ok tt)
    ↔ Admits 2000 sample_record sample_expected
script_check_iff_example =
    script_check_iff (λ m. m) (λ P m h. h) (λ P m h. h) 2000 sample_record sample_expected tt
      sample-IsCanonical
