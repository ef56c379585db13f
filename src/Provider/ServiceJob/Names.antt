-- ===== src/Provider/ServiceJob/Names.antt =====
-- provider/servicejob.go, provider/backupjob.go: the names of the library's own operations.
use Prim.Native.String as Text
use text.Mathlib.TextLemmas.{append_cancel_left, cons-append}
use managed_services_lib.Common.{String, code, ℕ, ◌≡◌, refl, sym, ap, ◌∙◌, arith}
use managed_services_lib.Provider.ServiceJob.{
  service_job_name, job_op_backup, job_op_delete_backup, job_op_restore,
}

-- The operations with a prefix of the library.
pub data Operation : Type 0 where
  backup delete_backup restore : Operation

abbrev pub prefix : Operation → String
prefix backup = job_op_backup
prefix delete_backup = job_op_delete_backup
prefix restore = job_op_restore

abbrev initial : String → ℕ
initial String.[] = 0
initial (String.◌∷◌ c s) = code c

-- The first letters of the prefixes differ.
initial-name :
    (op : Operation) (key : String)
    → initial (service_job_name (prefix op) key) ≡ initial (prefix op)
unfolding service_job_name
initial-name backup key = ap initial (cons-append "b" "ackup" (Text.◌++◌ "-" key))
initial-name delete_backup key = ap initial (cons-append "d" "elete-backup" (Text.◌++◌ "-" key))
initial-name restore key = ap initial (cons-append "r" "estore" (Text.◌++◌ "-" key))

same_operation : (a b : Operation) → initial (prefix a) ≡ initial (prefix b) → a ≡ b
same_operation backup backup h = refl
same_operation delete_backup delete_backup h = refl
same_operation restore restore h = refl
same_operation _ _ h = absurd (omega arith)

same_key : (op k j : String) → service_job_name op k ≡ service_job_name op j → k ≡ j
unfolding service_job_name
same_key op k j h =
    append_cancel_left "-" k j (append_cancel_left op (Text.◌++◌ "-" k) (Text.◌++◌ "-" j) h)

-- Two Jobs of the library's operations have one name only if they have the same operation and the
-- same key: no backup is taken for another one, nor for its deletion or a restore.
pub service_job_name-injective :
    (a b : Operation) (k j : String)
    → service_job_name (prefix a) k ≡ service_job_name (prefix b) j
    → (a ≡ b) × (k ≡ j)
service_job_name-injective a b k j h =
    let same : a ≡ b =
      same_operation a b (sym (initial-name a k) ∙ ap initial h ∙ initial-name b j) in
    (same, same_key (prefix b) k j (rw same at h))
