-- ===== src/Ipc/Connections/Laws.antt =====
-- Adding and removing connections.
use audioctl.Base.{
  ℕ, zero, suc, ◌≤◌, ◌≡◌, refl, ◌≢◌, Bool, true, false, not, ◌&&◌, ◌||◌, List, [], ◌∷◌, length,
  ◌==◌, if◌then◌else◌, arith,
}
use audioctl.Ipc.Connections.{Connection, remove_within, remove_connection, max_iterations}

-- Whether a descriptor is connected.
unfoldable pub is_connected : List Connection → ℕ → Bool
is_connected [] fd = false
is_connected (c ∷ cs) fd = if c.fd == fd then true else is_connected cs fd

-- Every descriptor stands in the list once.
abbrev pub IsDistinct : List Connection → Type 0
IsDistinct [] = Unit
IsDistinct (c ∷ cs) = (is_connected cs c.fd ≡ false) × IsDistinct cs

pub remove_within_lem :
    (n : ℕ) (conns : List Connection) (fd : ℕ)
    → length conns ≤ n
    → IsDistinct conns
    → let (rest, found) = remove_within n conns fd in
      (found ≡ is_connected conns fd)
      × (length rest ≤ length conns)
      × (is_connected rest fd ≡ false)
unfolding remove_within is_connected
remove_within_lem zero [] fd h d = (refl, omega arith, refl)
remove_within_lem zero (c ∷ cs) fd h d = absurd (omega arith)
remove_within_lem (suc n) [] fd h d = (refl, omega arith, refl)
remove_within_lem (suc n) (c ∷ cs) fd h d =
    ground (arith, remove_within_lem n cs fd (omega arith) d.1)

pub remove_within_other :
    (n : ℕ) (conns : List Connection) (fd other : ℕ)
    → other ≢ fd
    → is_connected (remove_within n conns fd).0 other ≡ is_connected conns other
unfolding remove_within is_connected
remove_within_other zero conns fd other h = refl
remove_within_other (suc n) [] fd other h = refl
remove_within_other (suc n) (c ∷ cs) fd other h =
    ground (arith, remove_within_other n cs fd other h)

pub remove_within-IsDistinct :
    (n : ℕ) (conns : List Connection) (fd : ℕ)
    → IsDistinct conns
    → IsDistinct (remove_within n conns fd).0
unfolding remove_within is_connected
remove_within-IsDistinct zero conns fd d = d
remove_within-IsDistinct (suc n) [] fd d = tt
remove_within-IsDistinct (suc n) (c ∷ cs) fd d =
    ground (arith, remove_within-IsDistinct n cs fd d.1, remove_within_other n cs fd c.fd)

-- With at most 10000 connections, of different descriptors, `remove_connection` closes a descriptor
-- exactly if it is connected, afterwards it is not, every other one is as before, and the
-- descriptors are still different.
pub remove_connection_lem :
    (conns : List Connection) (fd other : ℕ)
    → length conns ≤ max_iterations
    → IsDistinct conns
    → other ≢ fd
    → let (rest, found) = remove_connection conns fd in
      (found ≡ is_connected conns fd)
      × (is_connected rest fd ≡ false)
      × (is_connected rest other ≡ is_connected conns other)
      × IsDistinct rest
unfolding remove_connection
remove_connection_lem conns fd other h d ne =
    let (found, shorter, gone) = remove_within_lem max_iterations conns fd h d in
    (
      found,
      gone,
      remove_within_other max_iterations conns fd other ne,
      remove_within-IsDistinct max_iterations conns fd d,
    )

removed :
    (n : ℕ) (conns : List Connection) (gone fd : ℕ)
    → let (rest, found) = remove_within n conns gone in
      ((is_connected conns fd && not (is_connected rest fd || (found && (gone == fd)))) ≡ false)
unfolding remove_within is_connected
removed zero conns gone fd = ground arith
removed (suc n) [] gone fd = refl
removed (suc n) (c ∷ cs) gone fd = ground (arith, removed n cs gone fd)

-- A removal leaves every other descriptor connected, and without success also the one it was to
-- remove, for any list.
pub remove_connection_keeps :
    (conns : List Connection) (gone fd : ℕ)
    → let (rest, found) = remove_connection conns gone in
      ((is_connected conns fd && not (is_connected rest fd || (found && (gone == fd)))) ≡ false)
unfolding remove_connection
remove_connection_keeps conns gone fd = removed max_iterations conns gone fd
