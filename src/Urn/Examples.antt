-- ===== src/Urn/Examples.antt =====
-- Tests of the URN code, and its theorems at concrete inputs.
use authguard.Base.{◌≡◌, refl, ◌↔◌, ◌==◌, true, [], ◌∷◌, Text, codes, ok, err, splitn, split, join}
use authguard.Urn.{
  ResourceUrn, SegmentPattern, PathPattern, UrnPattern, invalid_glob_star, invalid_format,
  wildcard_in_exact_urn, invalid_wildcard, split_urn, split_path,
}
use authguard.Urn.Exact
use authguard.Urn.Pattern
use authguard.Urn.Pattern.{path_matches, matches}
use authguard.Urn.ExactTrip.{IsExact, IsExact-from_str_iff}
use authguard.Urn.PatternTrip.{IsPattern, IsPattern-from_str_iff}

abbrev job_text : Text
job_text = codes "urn:iam:prod:customer-growth:global:acme:job/1"

abbrev job : ResourceUrn
job = record {
  partition = codes "prod";
  service = codes "customer-growth";
  region = codes "global";
  tenant = codes "acme";
  path = codes "job" ∷ codes "1" ∷ [];
}

abbrev jobs : UrnPattern
jobs = record {
  partition = SegmentPattern.exact (codes "prod");
  service = SegmentPattern.exact (codes "customer-growth");
  region = SegmentPattern.any;
  tenant = SegmentPattern.exact (codes "acme");
  path = PathPattern.exact (codes "job") ∷ PathPattern.glob_star ∷ [];
}

reads_job : Exact.from_str job_text ≡ ok job
unfolding Exact.from_str split_urn split_path splitn split ◌==◌
reads_job = refl

reads_jobs : Pattern.from_str (codes "urn:iam:prod:customer-growth:*:acme:job/**") ≡ ok jobs
unfolding Pattern.from_str split_urn split_path splitn split ◌==◌
reads_jobs = refl

jobs_match : matches jobs job ≡ true
unfolding matches ◌==◌
jobs_match = refl

rejected :
    (Exact.from_str (codes "urn:iam:prod:a:b:c:job/*") ≡ err (wildcard_in_exact_urn (codes "*")))
    × (Exact.from_str (codes "urn:iam:prod:a:b:c:job:1") ≡ err invalid_format)
    × (Pattern.from_str (codes "urn:iam:prod:a:b:c:**/job") ≡ err invalid_glob_star)
    × (Pattern.from_str (codes "urn:iam:pr*:a:b:c:job") ≡ err (invalid_wildcard (codes "pr*")))
unfolding Exact.from_str Pattern.from_str split_urn split_path splitn split ◌==◌
rejected = (refl, refl, refl, refl)

IsExact-from_str_iff_example :
    (Exact.from_str job_text ≡ ok job) ↔ ((job_text ≡ Exact.to_string job) × IsExact job)
IsExact-from_str_iff_example = IsExact-from_str_iff job_text job

IsPattern-from_str_iff_example :
    (Pattern.from_str (Pattern.to_string jobs) ≡ ok jobs)
    ↔ ((Pattern.to_string jobs ≡ Pattern.to_string jobs) × IsPattern jobs)
IsPattern-from_str_iff_example = IsPattern-from_str_iff (Pattern.to_string jobs) jobs

job-IsExact : IsExact job
unfolding ◌==◌
job-IsExact = record {
  partition = (refl, refl, refl);
  service = (refl, refl, refl);
  region = (refl, refl, refl);
  tenant = (refl, refl, refl);
  filled = refl;
  path = (((refl, refl), refl, refl, refl), (((refl, refl), refl, refl, refl), tt));
}

abbrev only_job : UrnPattern
only_job = record {
  partition = SegmentPattern.exact (codes "prod");
  service = SegmentPattern.exact (codes "customer-growth");
  region = SegmentPattern.exact (codes "global");
  tenant = SegmentPattern.exact (codes "acme");
  path = PathPattern.exact (codes "job") ∷ PathPattern.exact (codes "1") ∷ [];
}

reads_only_job : Pattern.from_str (Exact.to_string job) ≡ ok only_job
unfolding Pattern.from_str Exact.to_string split_urn split_path splitn split join ◌==◌
reads_only_job = refl
