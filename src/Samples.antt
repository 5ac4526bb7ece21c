-- ===== src/Samples.antt =====
-- Rows of the tables of src/models/*/entities/*.entity.ts that the tests of the modules share.
use gov_jobs_backend.Base.{none, [], ◌∷◌, codes, false, true}
use gov_jobs_backend.Models.{Job, JobContent, JobAlert, User, user, ocsc, immediate}

abbrev pub content : JobContent
content = record {
  title = codes "Officer (50% field work)";
  agency = codes "Department of Lands";
  ministry = none;
  agency_external_id = none;
  agency_seal_url = none;
  job_category_id = none;
  job_category_other = none;
  job_type_id = none;
  job_type_other = none;
  job_level_id = none;
  job_level_other = none;
  job_selection_id = none;
  job_selection_other = none;
  job_condition_id = none;
  job_condition_other = none;
  province_ids = [];
  education_level_ids = 4 ∷ [];
  education_level_other = none;
  description = none;
  education_requirements = none;
  knowledge = none;
  skill = none;
  competency = none;
  criteria = none;
  salary_min = none;
  salary_max = none;
  position_amount = none;
  application_start = none;
  application_end = none;
  exam_date = none;
  interview_date = none;
  published_at = none;
  source_url = "https://job.ocsc.go.th/portal/jobs/1";
  apply_url = none;
  raw_payload = "{}";
}

abbrev pub job : Job
job = record {
  id = 1;
  source = ocsc;
  external_id = "1";
  content = content;
  content_hash = "h1";
  first_seen_at = 2000;
  last_seen_at = 2000;
}

abbrev pub somchai : User
somchai = record {
  id = 7;
  email = "somchai@example.com";
  password_hash = "hash";
  name = "Somchai";
  role = user;
  is_verified = false;
  locale = "th";
}

abbrev pub alert : JobAlert
alert = record {
  id = 20;
  user_id = 7;
  name = "lands";
  keywords = [];
  job_types = [];
  educations = [];
  provinces = [];
  notification_email = "somchai@example.com";
  unsubscribe_token = "t20";
  frequency = immediate;
  is_active = true;
  match_from = 1000;
  last_sent_at = none;
  created_at = 900;
}
