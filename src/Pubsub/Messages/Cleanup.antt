-- ===== src/Pubsub/Messages/Cleanup.antt =====
-- What the periodic cleanup, and the removal of a subscription's messages, take away.
use kinglet.Base.{
  ℕ, ◌≡◌, refl, String, Bool, true, false, not, Bool-cases, inl, inr, [], ◌∷◌, arith, keep, length,
  if◌then◌else◌, ◌==◌, string_eq,
}
use kinglet.Storage
use kinglet.Storage.{Table}
use kinglet.Pubsub.Messages.{Delivered, Repository, is_acked, eligible}
use kinglet.Pubsub.Messages.Maintenance.{cleanup_acked_messages, delete_messages_by_subscription}

keep_none :
    (p : String × Delivered → Bool) (table : Table Delivered)
    → length (keep p table) ≡ 0
    → keep (λ e. not (p e)) table ≡ table
keep_none p [] h = refl
keep_none p (e ∷ table) h = elim (Bool-cases (p e)) [
  | inl hit ↦ ground (arith, hit, h)
  | inr miss ↦ ground (arith, miss, h, keep_none p table)
]

-- The cleanup removes exactly the acknowledged delivery records, keeps the order of the others, changes
-- nothing else, and returns how many it removed.
pub cleanup-removes_acked :
    (repo : Repository)
    → cleanup_acked_messages repo ≡ (
      record repo { delivered = keep (λ e. not (is_acked e.1.ack_status)) repo.delivered },
      length (keep (λ e. is_acked e.1.ack_status) repo.delivered),
    )
unfolding cleanup_acked_messages Storage.find Storage.delete_many
cleanup-removes_acked repo =
    ground (arith, keep_none (λ (e : String × Delivered). is_acked e.1.ack_status) repo.delivered)

keep-keep :
    (p q : String × Delivered → Bool) (table : Table Delivered)
    → ((d : String × Delivered) → p d ≡ true → q d ≡ false)
    → keep p (keep (λ e. not (q e)) table) ≡ keep p table
keep-keep p q [] h = refl
keep-keep p q (e ∷ table) h = ground (arith, h e, keep-keep p q table h)

keep_removed :
    (p q : String × Delivered → Bool) (table : Table Delivered)
    → ((d : String × Delivered) → p d ≡ true → q d ≡ true)
    → keep p (keep (λ e. not (q e)) table) ≡ []
keep_removed p q [] h = refl
keep_removed p q (e ∷ table) h = ground (arith, h e, keep_removed p q table h)

-- The rows that a pull by the subscription at the time finds, without a limit.
abbrev pub backlog : String → ℕ → Repository → Table Delivered
backlog sub now repo = keep (λ e. eligible sub now e.1) repo.delivered

-- The cleanup changes no subscription's backlog.
pub backlog-cleanup :
    (sub : String) (now : ℕ) (repo : Repository)
    → backlog sub now (cleanup_acked_messages repo).0 ≡ backlog sub now repo
unfolding eligible
backlog-cleanup sub now repo = rw (cleanup-removes_acked repo) (
    keep-keep (λ (e : String × Delivered). eligible sub now e.1)
      (λ (e : String × Delivered). is_acked e.1.ack_status) repo.delivered
      (λ d h. ground (arith, h)))

-- Deleting a subscription's messages empties its backlog and leaves those of the others as they are.
pub backlog-delete_messages_by_subscription :
    (sub other : String) (now : ℕ) (repo : Repository)
    → backlog other now (delete_messages_by_subscription sub repo)
      ≡ (if other == sub then [] else backlog other now repo)
unfolding eligible delete_messages_by_subscription Storage.delete_many
backlog-delete_messages_by_subscription sub other now repo =
    let mine = λ (e : String × Delivered). e.1.subscription_name == sub in
    let theirs = λ (e : String × Delivered). eligible other now e.1 in
    elim (Bool-cases (other == sub)) [
      | inl same ↦ rw same (
          keep_removed theirs mine repo.delivered (λ d h. ground (
            arith,
            h,
            same,
            string_eq.equals_iff other sub,
            string_eq.equals_iff d.1.subscription_name other,
            string_eq.equals_iff d.1.subscription_name sub,
          )))
      | inr differ ↦ rw differ (
          keep-keep theirs mine repo.delivered (λ d h. ground (
            arith,
            h,
            differ,
            string_eq.equals_iff other sub,
            string_eq.equals_iff d.1.subscription_name other,
            string_eq.equals_iff d.1.subscription_name sub,
          )))
    ]
