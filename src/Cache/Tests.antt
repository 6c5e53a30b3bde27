-- ===== src/Cache/Tests.antt =====
-- Concrete runs of the cache model, over a moka that gives nothing up.
use egressdns.Prelude.{
  List, [], arith, false, length, min, nanos_per_sec, none, refl, some, true, ℕ, ℕ_discrete, ◌*◌,
  ◌++◌, ◌↔◌, ◌∷◌, ◌≡◌, ◌≢◌, ◌⊎◌,
}
use mathlib.Core.List.{Perm}
use egressdns.Cache.Lossless.{backends}
use egressdns.Cache.Name.{normalize_name, name_in_suffix}
use egressdns.Cache.Name.Laws.{name_in_suffix_iff}
use egressdns.Cache.Entry.{
  secure, insecure, bogus, indeterminate, DnssecStatus-discrete, EntryKind, CacheKey,
  CacheKey-discrete, CacheEntry, miss, VariantRecord, VariantSet, FailureEntry, TransportKind,
  remaining_ttl, is_valid,
}
use egressdns.Cache.Dns.{
  ServeStaleConfig, DnsCache, new, get, insert, promote, flush_suffix, record_variant,
  run_maintenance,
}
use egressdns.Cache.Reads.{Verdict, get-Verdict}
use egressdns.Cache.Verdicts.{promote-effect}
use egressdns.Cache.Flush.{Gone, Beneath, flush_suffix-effect, Asked}
use egressdns.Cache.History.{Call, run}
use egressdns.Cache.History.Provenance.{Origin, Promoted, served-Origin}
use egressdns.Cache.Variants.{retain_others, updated_variants}
use egressdns.Cache.Variants.Oldest.{Older, updated_variants-Older}
use egressdns.Cache.History.Tidy.{IsTidy, run-IsTidy}

abbrev example_com : List ℕ
example_com = b'e' ∷ b'x' ∷ b'.' ∷ b'c' ∷ b'o' ∷ b'm' ∷ b'.' ∷ []

abbrev key : CacheKey
key = record {
  name = example_com;
  qtype = 1;
  qclass = 1;
  view = record { group = b'd' ∷ []; ecs_identity = none };
  mode = record { dnssec_ok = false; checking_disabled = false };
}

abbrev answer : CacheEntry ℕ
answer = record {
  message = 7;
  received_at = 0;
  received_unix = 1000;
  ttl = 60;
  kind = EntryKind.positive;
  dnssec = indeterminate;
  source = record { server = b'u' ∷ []; transport = TransportKind.dot };
  fingerprint = 99;
  rrsig_expiry_unix = none;
  approx_bytes = 700;
}

abbrev config : ServeStaleConfig
config = record { enabled = true; max_stale = 3600 * nanos_per_sec }

abbrev empty : DnsCache backends
empty = record {
  answers = λ k. none;
  failures = λ k. none;
  variants = λ k. none;
  serve_stale = config;
  internal_max_ttl = 86400;
}

abbrev holding : DnsCache backends
holding = record empty { answers = λ k. some answer }

abbrev outage : FailureEntry
outage = record {
  recorded_at = 0;
  ttl = 5 * nanos_per_sec;
  rcode = 2;
  reason = [];
  consecutive = 1;
}

abbrev failing : DnsCache backends
failing = record empty { failures = λ k. some outage }

get-Verdict_example :
    Verdict config answer (90 * nanos_per_sec) (get holding key (90 * nanos_per_sec))
get-Verdict_example = get-Verdict holding key (90 * nanos_per_sec) refl (omega arith)

name_in_suffix_iff_example :
    (name_in_suffix example_com (b'm' ∷ b'.' ∷ []) ≡ true) ↔ Beneath example_com (b'm' ∷ b'.' ∷ [])
name_in_suffix_iff_example = name_in_suffix_iff example_com (b'm' ∷ b'.' ∷ [])

abbrev history : List (Call ℕ)
history = Call.promotes key 99 secure ∷ Call.maintains ∷ Call.inserts key answer ∷ []

abbrev promoted : CacheEntry ℕ
promoted = record answer { dnssec = secure }

promote-effect_example :
    let (c', done) = promote holding key 99 secure in
    ((e : CacheEntry ℕ) × (some answer ≡ some e)
      × (e.fingerprint ≡ 99)
      × (e.dnssec ≢ secure)
      × (done ≡ true)
      × (c' ≡ record holding {
        answers = backends.answers.insert key (record e { dnssec = secure }) holding.answers;
      })
      × ((k : CacheKey) (e' : CacheEntry ℕ)
          → c'.answers k ≡ some e'
          → ((k ≡ key) × (e' ≡ record e { dnssec = secure }))
            ⊎ ((k ≢ key) × (some answer ≡ some e'))))
    ⊎ (((some answer ≡ none)
          ⊎ ((e : CacheEntry ℕ) × (some answer ≡ some e)
              × ((e.fingerprint ≢ 99) ⊎ (e.dnssec ≡ secure))))
        × (done ≡ false)
        × (c' ≡ holding))
promote-effect_example = promote-effect {b = backends} holding key 99 secure

served-Origin_example :
    Origin key promoted history × (((f : ℕ) → ¬ Promoted key f bogus history) → secure ≢ bogus)
unfolding new get insert promote run_maintenance run DnssecStatus-discrete CacheKey-discrete
    ℕ_discrete remaining_ttl
served-Origin_example = served-Origin backends config 86400 history key 0 promoted refl

abbrev seen : ℕ → ℕ → VariantRecord ℕ
seen fingerprint at = record {
  fingerprint = fingerprint;
  message = 7;
  source = answer.source;
  observed_at = at;
  ttl = 60;
  dnssec = insecure;
}

abbrev sightings : List (Call ℕ)
sightings =
    Call.records_variant key (seen 5 50) 60
    ∷ Call.records_variant key (seen 4 40) 60
    ∷ Call.records_variant key (seen 3 30) 60
    ∷ Call.records_variant key (seen 2 20) 60
    ∷ Call.records_variant key (seen 1 10) 60
    ∷ []

abbrev remembered : VariantSet ℕ
remembered = record {
  variants = seen 2 20 ∷ seen 3 30 ∷ seen 4 40 ∷ seen 5 50 ∷ [];
  selected = none;
  selected_at = none;
}

run-IsTidy_example : IsTidy remembered
unfolding run new record_variant CacheKey-discrete ℕ_discrete is_valid
run-IsTidy_example = run-IsTidy backends config 86400 sightings key remembered refl

updated_variants-Older_example :
    let offered = retain_others 3 60 (seen 1 10 ∷ seen 3 30 ∷ []) ++ seen 3 50 ∷ [] in
    let kept = updated_variants 1 (seen 3 50) 60 (seen 1 10 ∷ seen 3 30 ∷ []) in
    (length kept ≡ min 1 (length offered))
    × ((gone : List (VariantRecord ℕ)) × Perm (gone ++ kept) offered × Older gone kept)
updated_variants-Older_example =
    updated_variants-Older 1 (seen 3 50) 60 (seen 1 10 ∷ seen 3 30 ∷ [])

flush_suffix-effect_example :
    let c' = flush_suffix holding (b'c' ∷ b'o' ∷ b'm' ∷ []) in
    let suffix = normalize_name (b'c' ∷ b'o' ∷ b'm' ∷ []) in
    Asked (λ k. Beneath k.name suffix) holding c'
    × ((Beneath key.name suffix × Gone c' key)
        ⊎ ((¬ Beneath key.name suffix)
            × ((now : ℕ) → (get c' key now ≡ miss) ⊎ (get c' key now ≡ get holding key now))))
flush_suffix-effect_example = flush_suffix-effect holding (b'c' ∷ b'o' ∷ b'm' ∷ []) key
