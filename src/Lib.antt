-- ===== src/Lib.antt =====
-- A model of c-axon, message-oriented sockets in C, and the properties that make it correct.
--
-- The program has two layers. src/sock.c keeps a sock instance: four daisy chains of workers
-- (listenners, readers, messengers, senders), the set of connected clients, and three callbacks. Each
-- worker has a thread. A listenner accepts clients, a reader connects to a server; both read from
-- their sockets and start a messenger for each piece of data, which calls the message callback. A
-- send starts a sender, which delivers a buffer to one client in turn, to all clients, or to a given
-- socket. src/axon.c builds on it publishers and subscribers, pushers and pullers, requesters and
-- repliers: it encodes messages with the AMP library, hands them to sock_send, and decodes in its
-- message callback what the messengers bring.
--
-- Files:
--   Base               shared library names, Boolean tests, lists, text, integers, and runs: a command
--                      is a function from a state to a result and a state, a fault, a wait that never
--                      ends, or fuel that ran out.
--   Sock/State         include/sock.h: workers, chains, clients, callbacks; memory is a function from
--                      addresses to cells, none for what is not allocated.
--   Sock/Machine       malloc, free, semaphores, writes to a worker, the sets of descriptors. A read or
--                      a free of what is not allocated is a fault; sem_wait at 0 is blocked.
--   Sock/Chain         sock_start_worker, sock_remove_worker.
--   Sock/Api           sock_create, sock_bind, sock_connect, sock_is_connected, sock_on, sock_send.
--   Sock/Release       sock_release.
--   Sock/Messenger     sock_thread_messenger, and how the reading threads start a messenger.
--   Sock/Listenner     sock_thread_listenner.
--   Sock/Reader        sock_thread_reader.
--   Sock/Sender        sock_thread_sender.
--   Sock/Instance      a sock instance as a whole: which worker owns which memory, the operations as
--                      actions (Sock/Instance/Action), and what sequences of them reach.
--   Axon/State         include/axon.h: the instance, its subscriptions; messages and their fields.
--   Axon/Amp           the operations of lib/amp as a parameter, and the laws that src/axon.c relies on.
--   Axon/Create        axon_create, axon_bind, axon_connect, axon_is_connected, axon_on, axon_release,
--                      axon_bind_cb, axon_error_cb.
--   Axon/Subs          axon_subscribe, axon_unsubscribe.
--   Axon/Send          axon_vsend, axon_reply, their arguments in Axon/Send/Params; axon_send only opens the
--                      argument list.
--   Axon/Message       axon_message_cb.
--   Axon/Delivery      a message from axon_vsend at one end to axon_message_cb at the other, and a send
--                      as a step of the sock instance (Axon/Delivery/Steps).
--   Examples           examples/: each program as a process with an instance, its output and the flag
--                      that SIGINT sets. Examples/Print has the loop over the fields of a message;
--                      Examples/Sub, Pull, Pub, Push, Rep, Req are the programs of these names,
--                      Examples/TopicsPub and TopicsSub those of examples/pubsub_topics.
--   Tests              concrete worlds and runs.
-- Another file below one of these proves properties of it and is named for them.
--
-- What the operating system answers (malloc, socket, accept, read, select, pthread_create, mq_send) is
-- an argument of the function that asks, so a theorem that quantifies over it holds for every answer.
-- Threads: a function is one thread; what the others do to the clients while the sender sleeps is an
-- argument of the sender. Memory that a sender owns is not changed by others. What the message
-- callbacks and those of subscriptions do is an argument too, which may change the whole world; the calls
-- of bind and error callbacks are events. Of a message queue the model keeps the messages under its name,
-- and counts the descriptors that the process has open; the time at which the others
-- answer a request is an argument, and mq_timedreceive expires where that is not before the deadline.
--
-- Bounds and fuel: a set of descriptors has 1024 of them, and the loops over it recurse on the number
-- that is left. The search of a sender runs on the fuel search_fuel, 13, which is enough: the retries
-- grow by half up to 5 seconds, and the fourth round at 5 seconds is the last. The endless loops of
-- the listenner and of the reader run over a list of rounds. sock_is_connected walks on fuel for the
-- workers it passes, axon_message_cb on fuel for the messages it decodes.
--
-- Threads of an instance run between the statements of a program, so a second of sleep in an example
-- has what they do meanwhile, and the signals that come, as an argument. An action of Sock/Instance is
-- one operation that runs to its end; where the sender sleeps, other threads may change the clients.
--
-- Not modelled: lib/amp and cJSON (submodules that are not in the repository; parameters) and regular
-- expressions (a parameter). The lines behind the endless loops of the listenner and of the reader are
-- never reached; sem_close, the free of an empty release (NULL) and cJSON_Delete do nothing to the
-- model. The sig_handler of the examples, and the callbacks of the four subscribers to topics, are the
-- same lines in each file and stand here once. The actions of Sock/Instance leave out a message callback
-- that binds, connects or sends: it stands for any code that keeps the instance sound. A reply whose
-- sock_send fails is no action: it leaves its buffer allocated. pthread_join is an event; as the threads
-- are detached, nothing is taken to follow from it.
pub mod Base
pub mod Sock
pub mod Axon
pub mod Examples
pub mod Tests
