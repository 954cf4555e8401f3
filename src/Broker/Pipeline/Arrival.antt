-- ===== src/Broker/Pipeline/Arrival.antt =====
-- The messages of a source arrive at a target.
use log_shipper.Base.{
  ℕ, ◌+◌, ◌≤◌, ◌<◌, ◌≡◌, refl, sym, ap, ◌∙◌, String, true, none, List, [], ◌∷◌, ◌++◌, map,
}
use log_shipper.Base.Lists.{length}
use log_shipper.Base.Word.{u64_mod}
use log_shipper.Protocol.{Writer, send_hello, send_bye}
use log_shipper.Protocol.Input.{Reader}
use log_shipper.Protocol.Stream.{write_messages}
use log_shipper.Broker.Manager.{finds_target}
use log_shipper.Broker.Target.{Library, World}
use log_shipper.Broker.Target.Goroutine as Target
use log_shipper.Broker.Target.Goroutine.{handle}
use log_shipper.Broker.Target.Goroutine.Messages as Messages
use log_shipper.Broker.Target.Goroutine.Messages.{log_frame, handle-Done}
use log_shipper.Broker.Source.{Source, stopping}
use log_shipper.Broker.Source.Goroutine as Source
use log_shipper.Broker.Source.Goroutine.{run}
use log_shipper.Broker.Source.Goroutine.Lines as Lines
use log_shipper.Broker.Source.Goroutine.Lines.{run-Done}
use log_shipper.Broker.Worker.{Worker, continues}
use log_shipper.Broker.Worker.Loop.{loop}
use log_shipper.Broker.Pipeline.{
  Carried, lines_of, raws_of, frames_of, for_target, times, jobs, AllGood, items_of, lines_good,
  items_good, log_frame-items, loop-Good,
}

-- Messages on the channel of a target, all at one time.
abbrev pub arrivals : ℕ → List (List ℕ) → List (ℕ × Target.Event)
arrivals now raws = map (λ raw. (now, Target.arrived raw)) raws

module _ (lib : Library) (now stop : ℕ) where
  arrivals_of-items :
      (s : Source) (t : String) (cs : List Carried)
      → Messages.arrivals_of (items_of lib s.name s.targets t now cs) ≡ arrivals now (raws_of cs)
  arrivals_of-items s t [] = refl
  arrivals_of-items s t (c ∷ cs) =
      ap (◌∷◌ (now, Target.arrived c.line.raw)) (arrivals_of-items s t cs)

  raws-lines : (cs : List Carried) → map (λ (l : Lines.Line). l.raw) (lines_of cs) ≡ raws_of cs
  raws-lines [] = refl
  raws-lines (c ∷ cs) = ap (◌∷◌ c.line.raw) (raws-lines cs)

  -- Let messages be parsed and marshalled, for the broker and for a target without rate limits that
  -- the broker has and that their source names once, and let the target take and confirm them. When
  -- the goroutine of the source gets them and a stop, a worker what it hands out, and the goroutine
  -- of the target what the worker hands to it and a stop, then all three go through; the target
  -- gets, between HELLO and BYE, one frame for each message of the source, in their order; and as
  -- many messages are taken off the count of those in flight.
  pub lines_arrive :
      (cs : List Carried) (s : Source) (v : Worker) (w : World)
      (source_writer greeted_source target_writer greeted_target : Writer) (reader : Reader)
      → AllGood lib s.name s.targets w.name cs
      → send_hello lib.wire source_writer ≡ (true, greeted_source)
      → s.outbound ≡ []
      → 1 ≤ s.manager.source_wait
      → v.sends ≡ []
      → finds_target w.name v.manager ≡ true
      → times w.name s.targets ≡ 1
      → send_hello lib.wire target_writer ≡ (true, greeted_target)
      → w.rules ≡ []
      → (write_messages lib.wire greeted_target (frames_of cs)).0 ≡ none
      → Messages.Confirms lib.wire (items_of lib s.name s.targets w.name now cs) reader
      → length (items_of lib s.name s.targets w.name now cs) ≤ w.manager.in_flight
      → w.connection.stats.messages_in_flight < u64_mod
      → 1 ≤ w.manager.target_wait
      → (s' : Source) × (v' : Worker) × (w' : World) × (run lib now
            (Source.connected source_writer)
            (Lines.arrivals_of (lines_of cs) ++ (stop, stopping) ∷ [])
            s
          ≡ Source.left s')
        × (loop lib (jobs now s'.outbound) v ≡ continues v')
        × (handle lib now
              (Target.connected target_writer reader)
              (arrivals now (for_target w.name v'.sends) ++ (stop, Target.stopping) ∷ [])
              w
            ≡ Target.left w')
        × (w'.writer ≡ send_bye lib.wire (write_messages lib.wire greeted_target (frames_of cs)).1)
        × (w'.manager.in_flight + length (items_of lib s.name s.targets w.name now cs)
            ≡ w.manager.in_flight)
  lines_arrive cs s v w source_writer greeted_source target_writer greeted_target reader good
        source_hello fresh source_counted idle known once target_hello no_rules written ok enough
        small counted =
      let items = items_of lib s.name s.targets w.name now cs in
      let frames = log_frame-items lib s.name s.targets w.name now cs in
      let source =
        run-Done lib stop (lines_of cs) now source_writer greeted_source s source_hello
          (lines_good lib s.name s.targets w.name cs good) source_counted in
      let worker = loop-Good lib s.name s.targets w.name now cs v good known once in
      let handed : source.0.outbound ≡ raws_of cs =
        source.2.handed_out
        ∙ ap (λ xs. xs ++ map (λ l. l.raw) (lines_of cs)) fresh
        ∙ raws-lines cs in
      let got : for_target w.name worker.0.sends ≡ raws_of cs =
        worker.2 ∙ ap (λ sends. for_target w.name sends ++ raws_of cs) idle in
      let target =
        handle-Done lib stop items now target_writer greeted_target reader w target_hello no_rules
          (items_good lib s.name s.targets w.name now cs good)
          (ap (λ ms. (write_messages lib.wire greeted_target ms).0) frames ∙ written) ok enough
          small counted in
      (
        source.0,
        worker.0,
        target.0,
        source.1,
        ap (λ raws. loop lib (jobs now raws) v) handed ∙ worker.1,
        ap
              (λ es.
                handle lib now (Target.connected target_writer reader)
                  (es ++ (stop, Target.stopping) ∷ []) w)
              (ap (arrivals now) got ∙ sym (arrivals_of-items s w.name cs))
            ∙ target.1,
        target.2.sent
            ∙ ap (λ ms. send_bye lib.wire (write_messages lib.wire greeted_target ms).1) frames,
        target.2.settled,
      )
