-- ===== src/Subscriptions/Operations.antt =====
-- subscriptions/: the operations on the store, in any order, from an empty directory on.
pub mod Promised
use clashpulse.Base.{
  ◌≡◌, refl, String, Bool, true, false, ◌||◌, List, [], ◌∷◌, Option, none, some, is_blank, All,
}
use clashpulse.Monitor.Policy.{Url}
use clashpulse.Subscriptions.Model.{
  Subscription, Result, ok, err, valid_optional_hash, normalize_subscription,
}
use clashpulse.Subscriptions.Model.Normal.{normalize_new_idem, idem-is_normal}
use clashpulse.Subscriptions.Store.{
  Bytes, Store, Marker, blank_marker, add, fresh_record, DeleteIo, delete,
}
use clashpulse.Subscriptions.Store.Generations.{CleanIo, cleanup_applied}
use clashpulse.Subscriptions.Store.Applied.{
  RecoverIo, set_applied, restore_applied, mark_activation_pending, clear_activation_pending,
  mark_activation_accepted, retry_accepted_activation_cleanup, recover_pending_activation,
}
use clashpulse.Subscriptions.Store.Sound.{IsSound, MarkerSound, EntrySound}
use clashpulse.Subscriptions.Store.Sound.Edits.{add-IsSound, delete-IsSound}
use clashpulse.Subscriptions.Store.Sound.Commit.{cleanup_applied-IsSound}
use clashpulse.Subscriptions.Store.Sound.Pointer.{
  set_applied-IsSound, restore_applied-IsSound, mark_activation_pending-IsSound,
  clear_activation_pending-IsSound, mark_activation_accepted-IsSound,
  retry_accepted_activation_cleanup-IsSound, recover_pending_activation-IsSound,
}
use clashpulse.Subscriptions.Refresh.{RefreshIo, refresh}
use clashpulse.Subscriptions.Refresh.Sound.{IsLimited, refresh-IsSound}

-- The operations, with what the operating system answers. An addition has what `newID` returns, which
-- is asked where the subscription has no identifier.
pub data Operation : Type 0 where
  add_op : Bool → Bool → Bool → Result String → Subscription → Operation
  refresh_op : RefreshIo → Bool → String → Operation
  delete_op : DeleteIo → String → Operation
  mark_op : Bool → Bool → Marker → String → Operation
  apply_op : Bool → Bool → Marker → Operation
  restore_op : Bool → Bool → Marker → Operation
  accept_op : Bool → Bool → Operation
  clear_op : Bool → Operation
  retry_op : Bool → Bool → Operation
  recover_op : RecoverIo → String → Operation
  clean_op : (String → CleanIo) → Operation

abbrev pub empty_store : Store
empty_store = record {
  records = λ id. none;
  current = blank_marker;
  disk = record {
    names = [];
    dirs = λ id. none;
    active_file = none;
    pending_file = none;
    quarantine = [];
  };
}

-- A failed write of a new record leaves nothing behind, the client limits what it reads, and the record
-- can be written back where a refresh is too late.
unfoldable pub IsAllowed : Operation → Type 0
IsAllowed (add_op mkdir_ok write_ok remove_ok fresh sub) = (write_ok || remove_ok) ≡ true
IsAllowed (refresh_op io download_only id) =
    ((io.install_ok || io.remove_ok) ≡ true) × IsLimited io.fetch × (io.rollback_ok ≡ true)
IsAllowed _ = Unit

module _ (parse : String → Option Url) (hash : Bytes → String) (valid_profile : Bytes → Bool) where
  add_normalized : Bool → Bool → Bool → Result Subscription → Store → Store
  add_normalized mkdir_ok write_ok remove_ok (err e) s = s
  add_normalized mkdir_ok write_ok remove_ok (ok sub) s =
      (add mkdir_ok write_ok remove_ok (fresh_record sub) s).1

  unfoldable pub perform : Operation → Store → Store
  unfolding add_normalized
  perform (add_op mkdir_ok write_ok remove_ok fresh sub) s =
      add_normalized mkdir_ok write_ok remove_ok (normalize_subscription parse (some fresh) sub) s
  perform (refresh_op io download_only id) s =
      (refresh parse hash valid_profile io download_only id s).1
  perform (delete_op io id) s = (delete io id s).1
  perform (mark_op stat_ok write_ok m commit) s =
      (mark_activation_pending stat_ok write_ok m commit s).1
  perform (apply_op readable write_ok m) s = (set_applied hash readable write_ok m s).1
  perform (restore_op readable change_ok m) s = (restore_applied hash readable change_ok m s).1
  perform (accept_op readable write_ok) s = (mark_activation_accepted readable write_ok s).1
  perform (clear_op remove_ok) s = (clear_activation_pending remove_ok s).1
  perform (retry_op readable remove_ok) s =
      (retry_accepted_activation_cleanup readable remove_ok s).1
  perform (recover_op io commit) s = (recover_pending_activation hash io commit s).1
  perform (clean_op io) s = cleanup_applied io s

  unfoldable pub perform_all : List Operation → Store → Store
  unfolding perform
  perform_all [] s = s
  perform_all (o ∷ os) s = perform_all os (perform o s)

  add_normalized-IsSound :
      (mkdir_ok write_ok remove_ok : Bool) (fresh : Result String) (c : Subscription)
      (r : Result Subscription) (s : Store)
      → normalize_subscription parse (some fresh) c ≡ r
      → (write_ok || remove_ok) ≡ true
      → IsSound parse hash s
      → IsSound parse hash (add_normalized mkdir_ok write_ok remove_ok r s)
  unfolding add_normalized
  add_normalized-IsSound mkdir_ok write_ok remove_ok fresh c (err e) s q k h = h
  add_normalized-IsSound mkdir_ok write_ok remove_ok fresh c (ok sub) s q k h =
      let (again, valid) = normalize_new_idem parse fresh c sub q in
      add-IsSound parse hash mkdir_ok write_ok remove_ok sub s (idem-is_normal parse sub again)
        valid k h

  empty-IsSound : IsSound parse hash empty_store
  unfolding MarkerSound EntrySound
  empty-IsSound = record { entries = λ x. _; listed = λ x. refl; marked = (refl, refl) }

  module _ (hex : (b : Bytes) → valid_optional_hash (hash b) ≡ true)
      (there : (b : Bytes) → is_blank (hash b) ≡ false) where
    perform-IsSound :
        (o : Operation) (s : Store)
        → IsAllowed o
        → IsSound parse hash s
        → IsSound parse hash (perform o s)
    unfolding perform IsAllowed
    perform-IsSound (add_op mkdir_ok write_ok remove_ok fresh sub) s k h =
        add_normalized-IsSound mkdir_ok write_ok remove_ok fresh sub
          (normalize_subscription parse (some fresh) sub) s refl k h
    perform-IsSound (refresh_op io download_only id) s (k, l, b) h =
        refresh-IsSound parse hash valid_profile hex there io b download_only id s k l h
    perform-IsSound (delete_op io id) s k h = delete-IsSound parse hash io id s h
    perform-IsSound (mark_op stat_ok write_ok m commit) s k h =
        mark_activation_pending-IsSound parse hash stat_ok write_ok m commit s h
    perform-IsSound (apply_op readable write_ok m) s k h =
        set_applied-IsSound parse hash readable write_ok m s h
    perform-IsSound (restore_op readable change_ok m) s k h =
        restore_applied-IsSound parse hash readable change_ok m s h
    perform-IsSound (accept_op readable write_ok) s k h =
        mark_activation_accepted-IsSound parse hash readable write_ok s h
    perform-IsSound (clear_op remove_ok) s k h =
        clear_activation_pending-IsSound parse hash remove_ok s h
    perform-IsSound (retry_op readable remove_ok) s k h =
        retry_accepted_activation_cleanup-IsSound parse hash readable remove_ok s h
    perform-IsSound (recover_op io commit) s k h =
        recover_pending_activation-IsSound parse hash io commit s h
    perform-IsSound (clean_op io) s k h = cleanup_applied-IsSound parse hash io s h

    perform_all-IsSound_from :
        (os : List Operation) (s : Store)
        → All IsAllowed os
        → IsSound parse hash s
        → IsSound parse hash (perform_all os s)
    unfolding perform_all
    perform_all-IsSound_from [] s k h = h
    perform_all-IsSound_from (o ∷ os) s (k, ks) h =
        perform_all-IsSound_from os (perform o s) ks (perform-IsSound o s k h)

    pub perform_all-IsSound :
        (os : List Operation) → All IsAllowed os → IsSound parse hash (perform_all os empty_store)
    perform_all-IsSound os k = perform_all-IsSound_from os empty_store k empty-IsSound
