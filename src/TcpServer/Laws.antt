-- ===== src/TcpServer/Laws.antt =====
-- The connections that a server serves, src/net/tcp_server.rs.
use sickle.Base.{
  ℕ, ◌+◌, ◌%◌, ◌<◌, ◌≡◌, ◌≢◌, refl, sym, subst, ◌∙◌, true, some, List, [], ◌∷◌, ◌++◌, append_assoc,
  append-nil, All, map, length, update, arith, ok,
}
use sickle.Bits.{word}
use sickle.Event.{Job}
use sickle.Ready
use sickle.PollOpt.{edge}
use sickle.Selector.{Selector, ioevent_to_epoll}
use sickle.Sockets.{TcpStream}
use sickle.TcpServer.Defs.{
  Handler, Served, TcpServer, on_accept, attach_connection, socket_entry, wired, both,
  on_accept_connection, accept_streams,
}

-- The selector knows a stream, under the token `id` and with its job, in the map and in the kernel.
pub record Knows (sel : Selector) (fd id : ℕ) (job : Job) : Type 0 where
  pub entry :
      sel.events_map fd
      ≡ some (record { token_entry = socket_entry id; job = job; ready = Ready.empty })
  pub event : sel.kernel fd ≡ some (record { events = ioevent_to_epoll both edge; u64 = fd })

-- A stream that is new, or of the selector.
abbrev pub IsFree : Selector → TcpStream → Type 0
IsFree sel s = s.selector_id.id ≡ 0

-- The stream with the selector's identity.
abbrev pub owned : Selector → TcpStream → TcpStream
owned sel s = record s { selector_id = record { id = sel.id } }

-- The selector after a stream was registered.
abbrev pub knowing : Selector → ℕ → ℕ → Job → Selector
knowing sel fd id job = record sel {
  events_map =
      update sel.events_map fd
        (some (record { token_entry = socket_entry id; job = job; ready = Ready.empty }));
  kernel = update sel.kernel fd (some (record { events = ioevent_to_epoll both edge; u64 = fd }));
}

on_accept_connection_lem :
    (s : TcpServer) (h : Handler) (stream : TcpStream) (job : Job)
    → s.session_alloc ≡ some h
    → IsFree s.selector stream
    → on_accept_connection s stream job true
      ≡ ok (record s {
        selector = knowing (h.opens s.selector) stream.sys ((s.token_id + 1) % word) job;
        token_id = (s.token_id + 1) % word;
        served =
            s.served
            ++ (record { stream = owned (h.opens s.selector) stream; conn = wired h } ∷ []);
        calls = on_accept ∷ attach_connection ∷ s.calls;
      })
unfolding on_accept_connection
on_accept_connection_lem s h stream job alloc free = ground (arith, alloc, free)

-- The selector knows the streams, with tokens that count on from `n`.
abbrev pub Numbered : Selector → ℕ → List (TcpStream × Job) → Type 0
Numbered sel n [] = Unit
Numbered sel n (x ∷ xs) = Knows sel x.0.sys (n + 1) x.1 × Numbered sel (n + 1) xs

abbrev pub Far : ℕ → List (TcpStream × Job) → Type 0
Far fd xs = All (λ x. fd ≢ x.0.sys) xs

-- Descriptors of streams that are open at the same time.
abbrev pub AreApart : List (TcpStream × Job) → Type 0
AreApart [] = Unit
AreApart (x ∷ xs) = Far x.0.sys xs × AreApart xs

abbrev pub Unchanged : Selector → Selector → ℕ → Type 0
Unchanged sel sel' fd = (sel'.events_map fd ≡ sel.events_map fd) × (sel'.kernel fd ≡ sel.kernel fd)

Knows-Unchanged :
    (sel sel' : Selector) (fd id : ℕ) (job : Job)
    → Unchanged sel sel' fd
    → Knows sel fd id job
    → Knows sel' fd id job
Knows-Unchanged sel sel' fd id job same k = record {
  entry = same.0 ∙ k.entry;
  event = same.1 ∙ k.event;
}

knowing-Unchanged :
    (sel : Selector) (fd id : ℕ) (job : Job) (k : ℕ)
    → k ≢ fd
    → Unchanged sel (knowing sel fd id job) k
knowing-Unchanged sel fd id job k ne = (ground (arith, ne), ground (arith, ne))

pub knowing-Knows :
    (sel : Selector) (fd id : ℕ) (job : Job) → Knows (knowing sel fd id job) fd id job
knowing-Knows sel fd id job = record { entry = ground arith; event = ground arith }

-- What a handler opens leaves the descriptor alone, and the selector is the same one.
abbrev pub Spares : Handler → ℕ → Type 0
Spares h fd = (sel : Selector) → Unchanged sel (h.opens sel) fd

abbrev pub KeepsId : Handler → Type 0
KeepsId h = (sel : Selector) → (h.opens sel).id ≡ sel.id

abbrev pub served_for : Handler → (id : ℕ) → List (TcpStream × Job) → List Served
served_for h id streams =
    map
      (λ (x : TcpStream × Job). record {
        stream = record x.0 { selector_id = record { id = id } };
        conn = wired h;
      })
      streams

-- What accepting the streams has led to.
record Serves (s s' : TcpServer) (h : Handler) (streams : List (TcpStream × Job)) : Type 0 where
  returns : accept_streams s streams ≡ ok s'
  served : s'.served ≡ s.served ++ served_for h s.selector.id streams
  numbered : Numbered s'.selector s.token_id streams
  ids : s'.token_id ≡ s.token_id + length streams
  others : (fd : ℕ) → Far fd streams → Spares h fd → Unchanged s.selector s'.selector fd

accept_streams-cons :
    (s s1 : TcpServer) (x : TcpStream × Job) (xs : List (TcpStream × Job))
    → on_accept_connection s x.0 x.1 true ≡ ok s1
    → accept_streams s (x ∷ xs) ≡ accept_streams s1 xs
unfolding accept_streams
accept_streams-cons s s1 x xs done = ground (arith, done)

accept_streams-Serves :
    (streams : List (TcpStream × Job)) (s : TcpServer) (h : Handler)
    → s.session_alloc ≡ some h
    → KeepsId h
    → All (λ x. Spares h x.0.sys) streams
    → All (λ x. IsFree s.selector x.0) streams
    → AreApart streams
    → s.token_id + length streams < word
    → (s' : TcpServer) × Serves s s' h streams
unfolding accept_streams
accept_streams-Serves [] s h alloc keeps spares free apart fits = (
  s,
  record {
    returns = refl;
    served = sym (append-nil s.served);
    numbered = tt;
    ids = omega arith;
    others = λ fd far spared. (refl, refl);
  },
)
accept_streams-Serves (x ∷ xs) s h alloc keeps spares free apart fits =
    let id : (s.token_id + 1) % word ≡ s.token_id + 1 = omega (arith, fits) in
    let sel0 = h.opens s.selector in
    let sel1 = knowing sel0 x.0.sys ((s.token_id + 1) % word) x.1 in
    let s1 : TcpServer = record s {
      selector = sel1;
      token_id = (s.token_id + 1) % word;
      served = s.served ++ (record { stream = owned sel0 x.0; conn = wired h } ∷ []);
      calls = on_accept ∷ attach_connection ∷ s.calls;
    } in
    let (s', r) =
      accept_streams-Serves xs s1 h alloc keeps spares.1 free.1 apart.1 (omega (arith, fits, id)) in
    (
      s',
      record {
        returns =
            accept_streams-cons s s1 x xs (on_accept_connection_lem s h x.0 x.1 alloc free.0)
            ∙ r.returns;
        served =
            subst (λ n. s'.served ≡ s.served ++ served_for h n (x ∷ xs)) (keeps s.selector)
              (r.served ∙ append_assoc s.served _ _);
        numbered = (
          Knows-Unchanged sel1 s'.selector x.0.sys (s.token_id + 1) x.1
              (r.others x.0.sys apart.0 spares.0)
              (subst (λ n. Knows sel1 x.0.sys n x.1) id
                (knowing-Knows sel0 x.0.sys ((s.token_id + 1) % word) x.1)),
          subst (λ n. Numbered s'.selector n xs) id r.numbered,
        );
        ids = r.ids ∙ omega (arith, id);
        others = λ fd far spared.
            let zero = spared s.selector in
            let one = knowing-Unchanged sel0 x.0.sys ((s.token_id + 1) % word) x.1 fd far.0 in
            let rest = r.others fd far.1 spared in
            (rest.0 ∙ one.0 ∙ zero.0, rest.1 ∙ one.1 ∙ zero.1);
      },
    )

-- A started server serves every stream that the acceptor hands over, where the system accepts to
-- register them, the streams are registered with no selector and have distinct descriptors, the
-- token numbers do not reach 2^64, and what the handlers do to the selector when they are attached
-- keeps its identity and leaves these descriptors alone: it returns, has added one connection with the
-- handler's three jobs for each stream, in order, and the selector knows each stream under its own
-- descriptor with the job of its connection and the next token number; every other descriptor that
-- the handlers leave alone is as before.
pub accept_streams-served :
    (streams : List (TcpStream × Job)) (s : TcpServer) (h : Handler)
    → s.session_alloc ≡ some h
    → KeepsId h
    → All (λ x. Spares h x.0.sys) streams
    → All (λ x. IsFree s.selector x.0) streams
    → AreApart streams
    → s.token_id + length streams < word
    → (s' : TcpServer) × (accept_streams s streams ≡ ok s')
      × (s'.served ≡ s.served ++ served_for h s.selector.id streams)
      × Numbered s'.selector s.token_id streams
      × ((fd : ℕ) → Far fd streams → Spares h fd → Unchanged s.selector s'.selector fd)
accept_streams-served streams s h alloc keeps spares free apart fits =
    let (s', r) = accept_streams-Serves streams s h alloc keeps spares free apart fits in
    (s', r.returns, r.served, r.numbered, r.others)
