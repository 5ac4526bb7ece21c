-- ===== src/Documents.antt =====
-- Fetching a document and reading its text layer:
-- src/modules/documents/document-download.service.ts, src/modules/documents/pdf-text.extractor.ts.
-- The network's response, SHA-256 and the PDF library are parameters.
pub mod Buffers
pub mod Process
pub mod Rows
pub mod Settled
pub mod Alone
pub mod Offers
mod Tests
use gov_jobs_backend.Base.{
  ℕ, zero, suc, ◌+◌, ◌-◌, ◌*◌, min, max, Bool, true, false, not, ◌&&◌, Option, none, some, List, [],
  ◌∷◌, ◌++◌, length, take, drop, ◌==◌, ltb, leb, if◌then◌else◌, String, Text, codes, text_eq,
  is_space, trim, trim_start, print_number, read_digits, Attempt, ok, error,
}
use gov_jobs_backend.Dates.{is_digit}
use gov_jobs_backend.ThaiText.{normalize_thai_text}

-- The settings of `document` that the service reads.
pub record DocumentConfig : Type 0 where
  pub max_bytes : ℕ
  pub min_text_length : ℕ

-- What `reader.read()` gives until it is done: a value, or none. The stream may break instead.
pub data Stream : Type 0 where
  done : Stream
  broken : Text → Stream
  no_value : Stream → Stream
  chunk : List ℕ → Stream → Stream

pub record Response : Type 0 where
  pub is_ok : Bool
  pub status : ℕ
  pub content_length : Option Text
  pub content_type : Option Text
  pub body : Option Stream

pub record DownloadedDocument : Type 0 where
  pub bytes : List ℕ
  pub hash : String
  pub byte_length : ℕ
  pub content_type : Option Text

-- `Number.parseInt(text, 10)`: the digits that follow white space and a sign, if there are any; only
-- whether it is above a limit matters, which a negative number is not.
unfoldable pub leading_digits : Text → Text
leading_digits [] = []
leading_digits (c ∷ s) = if is_digit c then c ∷ leading_digits s else []

abbrev pub unsigned : Text → Text
unsigned [] = []
unsigned (c ∷ s) = if c == b'+' then s else c ∷ s

unfoldable pub exceeds : Option Text → ℕ → Option ℕ
unfolding leading_digits trim_start read_digits
exceeds none limit = none
exceeds (some header) limit =
    let declared = read_digits 0 (leading_digits (unsigned (trim_start header))) in
    if ltb limit declared then some declared else none

-- Typed arrays. A write past the end is a RangeError, `none`.
unfoldable pub new_array : ℕ → List ℕ
new_array zero = []
new_array (suc n) = 0 ∷ new_array n

unfoldable pub write_at : List ℕ → ℕ → List ℕ → Option (List ℕ)
write_at buffer offset value =
    if leb (offset + length value) (length buffer)
    then some (take offset buffer ++ (value ++ drop (offset + length value) buffer))
    else none

abbrev pub initial_buffer_size : ℕ
initial_buffer_size = 64 * 1024

abbrev pub range_error : Text
range_error = codes "offset is out of bounds"

-- A larger array with the first `kept` bytes of the old one; it is replaced only when too small.
unfoldable pub grow : ℕ → ℕ → ℕ → List ℕ → Option (List ℕ)
unfolding new_array write_at
grow limit total kept buffer =
    if ltb (length buffer) total
    then write_at (new_array (min (max (length buffer * 2) total) limit)) 0 (take kept buffer)
    else some buffer

abbrev pub empty_body : String → Text
empty_body url = codes "GET " ++ (codes url ++ codes " returned an empty body")

-- The view of the filled part, once the loop is over.
abbrev pub filled_part : String → Attempt Text (List ℕ × ℕ) → Attempt Text (List ℕ)
filled_part url (error e) = error e
filled_part url (ok (buffer, total)) =
    if total == 0 then error (empty_body url) else ok (take total buffer)

module _ (limit : ℕ) where
  unfoldable pub too_long : Text
  too_long =
      codes "document exceeded the "
      ++ (print_number limit ++ codes " byte limit while downloading")

  -- The loop over the stream: the buffer and how many bytes of it are filled.
  unfoldable pub read_chunks : Stream → List ℕ → ℕ → Attempt Text (List ℕ × ℕ)
  unfolding grow write_at
  read_chunks done buffer total = ok (buffer, total)
  read_chunks (broken message) buffer total = error message
  read_chunks (no_value s) buffer total = read_chunks s buffer total
  read_chunks (chunk value s) buffer total =
      let total' = total + length value in
      elim (ltb limit total') [
        | true ↦ error too_long
        | false ↦ elim (grow limit total' total buffer) [
          | none ↦ error range_error
          | some grown ↦ elim (write_at grown total value) [
            | none ↦ error range_error
            | some filled ↦ read_chunks s filled total'
          ]
        ]
      ]

  unfoldable pub read_capped : String → Stream → Attempt Text (List ℕ)
  read_capped url s = filled_part url (read_chunks s (new_array initial_buffer_size) 0)

unfoldable pub looks_like_pdf : List ℕ → Bool
unfolding text_eq
looks_like_pdf bytes = text_eq (take 5 bytes) (codes "%PDF-")

abbrev pub or_none : Option Text → Text
or_none none = codes "none"
or_none (some t) = t

-- The response, or the message of the exception that `fetch` threw.
unfoldable pub fetch_or_throw : String → Attempt Text Response → Attempt Text (Response × Stream)
fetch_or_throw url (error message) =
    error (codes "GET " ++ (codes url ++ (codes " failed: " ++ message)))
fetch_or_throw url (ok r) =
    if not r.is_ok
    then error (codes "GET " ++ (codes url ++ (codes " returned " ++ print_number r.status)))
    else elim r.body [
      | none ↦ error (codes "GET " ++ (codes url ++ codes " returned no body"))
      | some s ↦ ok (r, s)
    ]

module _ (sha256 : List ℕ → String) (config : DocumentConfig) where
  unfoldable pub received : Response → List ℕ → Attempt Text DownloadedDocument
  unfolding looks_like_pdf
  received r bytes =
      if not (looks_like_pdf bytes)
      then error (codes "not a PDF (content-type: " ++ (or_none r.content_type ++ codes ")"))
      else ok (record {
        bytes = bytes;
        hash = sha256 bytes;
        byte_length = length bytes;
        content_type = r.content_type;
      })

  unfoldable pub download : String → Attempt Text Response → Attempt Text DownloadedDocument
  unfolding fetch_or_throw exceeds read_capped received
  download url fetched = elim (fetch_or_throw url fetched) [
    | error e ↦ error e
    | ok (r, s) ↦ elim (exceeds r.content_length config.max_bytes) [
      | some declared ↦ error (
          codes "document is "
          ++ (print_number declared
              ++ (codes " bytes, over the " ++ (print_number config.max_bytes ++ codes " limit"))))
      | none ↦ elim (read_capped config.max_bytes url s) [
        | error e ↦ error e
        | ok bytes ↦ received r bytes
      ]
    ]
  ]

-- `text.replace(/\s+/g, " ").trim()`: a run of white space becomes one space.
unfoldable pub collapse_spaces : Bool → Text → Text
unfolding is_space
collapse_spaces after_space [] = []
collapse_spaces after_space (c ∷ s) =
    let rest = collapse_spaces (is_space c) s in
    if is_space c then (if after_space then rest else 32 ∷ rest) else c ∷ rest

unfoldable pub collapse_whitespace : Text → Text
unfolding collapse_spaces trim
collapse_whitespace text = trim (collapse_spaces false text)

pub record PdfExtractionResult : Type 0 where
  pub text : Text
  pub page_count : ℕ

module _ (nfc : Text → Text) (unpdf : List ℕ → Attempt Text PdfExtractionResult) where
  unfoldable pub extract : List ℕ → Attempt Text PdfExtractionResult
  extract bytes = elim (unpdf bytes) [
    | error e ↦ error e
    | ok r ↦ ok (record {
      text = normalize_thai_text nfc (collapse_whitespace r.text);
      page_count = r.page_count;
    })
  ]
