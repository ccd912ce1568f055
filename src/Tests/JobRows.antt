-- ===== src/Tests/JobRows.antt =====
-- Jobs written to and read from their rows.
use Prim.Native.Char.{code}
use bridge_core.Prelude.{
  ℕ, zero, suc, ◌+◌, ◌^◌, ◌≡◌, ◌∙◌, refl, ap, true, false, String, Option, some, List, [], ◌∷◌,
  ◌==◌, if◌then◌else◌, arith,
}
use bridge_core.Prelude.Int.{int32}
use bridge_core.Models.{JobRow}
use bridge_core.Models.Status
use bridge_core.Job.Base.{Codec, BaseJob, row_of, save}
use bridge_core.Job.RoundTrip.{IsCodec, save-row_of-overflow}
use bridge_core.Tests.Samples.{job_numbered}

-- A codec over unary texts: a number is a run of x, and each number of a list ends in y.
marks : ℕ → String → String
marks zero s = s
marks (suc n) s = String.◌∷◌ "x" (marks n s)

count_marks : String → ℕ
count_marks String.[] = 0
count_marks (String.◌∷◌ c s) = suc (count_marks s)

count_marks-marks : (n : ℕ) → count_marks (marks n "") ≡ n
unfolding marks count_marks
count_marks-marks zero = refl
count_marks-marks (suc n) = ap suc (count_marks-marks n)

write_list : List ℕ → String
write_list [] = ""
write_list (n ∷ ns) = marks n (String.◌∷◌ "y" (write_list ns))

read_list : ℕ → String → List ℕ
read_list acc String.[] = []
read_list acc (String.◌∷◌ c s) = elim (code c == b'y') [
  | true ↦ acc ∷ read_list 0 s
  | false ↦ read_list (acc + 1) s
]

read_list-marks :
    (n acc : ℕ) (s : String)
    → read_list acc (marks n (String.◌∷◌ "y" s)) ≡ (acc + n) ∷ read_list 0 s
unfolding marks read_list
read_list-marks zero acc s = ground arith
read_list-marks (suc n) acc s = read_list-marks n (acc + 1) s ∙ ground arith

read_list-write_list : (ns : List ℕ) → read_list 0 (write_list ns) ≡ ns
unfolding write_list read_list
read_list-write_list [] = refl
read_list-write_list (n ∷ ns) =
    read_list-marks n 0 (write_list ns) ∙ ground (arith, read_list-write_list ns)

pub unary : Codec
unary = record {
  encode_big = λ n. marks n "";
  decode_big = λ s. some (count_marks s);
  bytes_to_hex = write_list;
  hex_to_bytes = read_list 0;
  hash_hex = λ n. marks n "";
}

pub unary-IsCodec : IsCodec unary
unfolding unary
unary-IsCodec = record {
  decode-encode = λ n. ap some (count_marks-marks n);
  hex-bytes = read_list-write_list;
}

-- A job store that gives the id 12 to a new row and keeps the id of an old one.
abbrev store : JobRow → Option ℕ
store row = some (if row.id == 0 then 12 else row.id)

abbrev big_store : JobRow → Option ℕ
big_store row = some (2 ^ 31 + 5)

abbrev saved_as : ℕ → BaseJob
saved_as n = record (job_numbered 0) { id = int32 n; created_at = 90 }

save_twelve : save unary store 90 Status.pending (job_numbered 0) ≡ some (saved_as 12)
unfolding save
save_twelve = refl

save_big : save unary big_store 90 Status.pending (job_numbered 0) ≡ some (saved_as (2 ^ 31 + 5))
unfolding save
save_big = refl

save-row_of-overflow_example : (row_of unary 99 Status.failed (saved_as (2 ^ 31 + 5))).id ≡ 0
save-row_of-overflow_example =
    save-row_of-overflow unary unary-IsCodec big_store 90 99 (2 ^ 31 + 5) Status.pending
      Status.failed (job_numbered 0) (saved_as (2 ^ 31 + 5)) refl (omega arith) (omega arith)
      save_big
