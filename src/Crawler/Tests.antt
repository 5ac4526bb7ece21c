-- ===== src/Crawler/Tests.antt =====
-- A crawl of two announcements into a table that knows an older version of the first.
use gov_jobs_backend.Base.{◌≡◌, refl, none, some, List, [], ◌∷◌, All, arith}
use gov_jobs_backend.Models.{ocsc, dol, JobContent, Job, announcement_pdf}
use gov_jobs_backend.Crawler.{
  NormalizedJob, NormalizedAttachment, JobStore, persist, persist_from, persist_one, find_job,
  update_where, replace_attachments, Tally,
}
use gov_jobs_backend.Crawler.Stored.{IsJobTable}
use gov_jobs_backend.Crawler.Again.{IsStored, persist_again}
use gov_jobs_backend.Crawler.Persist.{persist-IsJobTable}

abbrev content : JobContent
content = record {
  title = [];
  agency = [];
  ministry = none;
  agency_external_id = none;
  agency_seal_url = none;
  job_category_id = none;
  job_category_other = none;
  job_type_id = some 1;
  job_type_other = none;
  job_level_id = none;
  job_level_other = none;
  job_selection_id = none;
  job_selection_other = none;
  job_condition_id = none;
  job_condition_other = none;
  province_ids = 10 ∷ [];
  education_level_ids = [];
  education_level_other = none;
  description = none;
  education_requirements = none;
  knowledge = none;
  skill = none;
  competency = none;
  criteria = none;
  salary_min = some 18000;
  salary_max = none;
  position_amount = some 3;
  application_start = none;
  application_end = none;
  exam_date = none;
  interview_date = none;
  published_at = none;
  source_url = "https://job.ocsc.go.th/1";
  apply_url = none;
  raw_payload = "{}";
}

abbrev old_row : Job
old_row = record {
  id = 7;
  source = ocsc;
  external_id = "A1";
  content = content;
  content_hash = "h0";
  first_seen_at = 100;
  last_seen_at = 100;
}

abbrev before : JobStore
before = record { jobs = old_row ∷ []; attachments = []; drawn = 8 }

abbrev notice : NormalizedAttachment
notice = record { name = "notice"; url = "https://job.ocsc.go.th/1.pdf"; type = announcement_pdf }

abbrev listing : List NormalizedJob
listing =
    record {
      source = ocsc;
      external_id = "A1";
      content = content;
      content_hash = "h1";
      attachments = notice ∷ [];
    }
    ∷ record {
      source = dol;
      external_id = "A1";
      content = content;
      content_hash = "h2";
      attachments = [];
    }
    ∷ []

abbrev tally : Tally
tally = record { new_jobs = 1; updated_jobs = 1; unchanged_jobs = 0; changed_job_ids = 7 ∷ 9 ∷ [] }

before-IsJobTable : IsJobTable before
before-IsJobTable = record {
  unique_ids = (refl, tt);
  unique_keys = (refl, tt);
  below = (omega arith, tt);
}

first_crawl : (persist 200 listing before).1 ≡ some tally
unfolding persist persist_from persist_one find_job update_where replace_attachments
first_crawl = refl

persist-IsJobTable_example : IsJobTable (persist 200 listing before).0
persist-IsJobTable_example = persist-IsJobTable 200 listing before before-IsJobTable

persist_again_example :
    All (IsStored (persist 200 listing before).0.jobs) listing
    × ((persist 300 listing (persist 200 listing before).0).1
        ≡ some
            (record { new_jobs = 0; updated_jobs = 0; unchanged_jobs = 2; changed_job_ids = [] }))
persist_again_example =
    persist_again 200 300 listing before tally before-IsJobTable (refl, (refl, tt)) first_crawl
