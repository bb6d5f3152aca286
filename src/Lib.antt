-- ===== src/Lib.antt =====
-- aionet: a datagram transport with numbered, acknowledged frames (package aionet, at the root)
-- over an asynchronous poller (package epoller), with the flags and errors that both use
-- (package dtype).
--
-- A connection has a reader and a writer goroutine (transport1.go). The writer numbers each
-- frame by a ring buffer, puts an 18-byte header before it, and keeps it until it is
-- acknowledged; the reader parses headers, hands acknowledgements to the writer, and buffers the
-- bytes of a datagram that the user's frame has no room for. Both wait for their descriptor by
-- requests to the poller, one goroutine that owns for each descriptor two races, one to read and
-- one to write, between the readiness of the descriptor and the deadlines set on it.
--
-- Common: what the other modules share. Go maps are association lists, words wrap at their
-- width, an error is a value of a data type, and code that may panic returns a result of type
-- Go.
--
-- RingBuffer: ringbuffer.go and newRingBuffer of base.go. The state is the record RingBuffer; a
-- `*ringItem` is an index into its heap. nextSeqNum, setNextItem and updateAckSeqNum are
-- next_seq_num, set_next_item and update_ack_seq_num. RingBuffer/Valid holds the invariant,
-- Send, Ack, Reset and Acknowledge the behaviour of each call, Runs any sequence of calls,
-- Drained and Slots the state of the window after all frames are acknowledged and over the wrap
-- of the numbers. The search of updateAckSeqNum is a recursion on the number of indices left, as
-- its loop counts them.
--
-- Epoller: epoller/poller.go and the constructors of epoller/base.go. Epoller/Race models ioRace
-- and ioReq, Epoller/Poller the operations of epoller on its races, Epoller/Poller/Handle its
-- handlers and the loop of run as a fold over the events received, Epoller/Poller/Wakeup the
-- calls that wake it up, Epoller/Poller/Wait the loop of epollWait over what its waits return,
-- with shutdown, Stop and newEPoller, Epoller/Events the growing and shrinking of the event
-- buffer, and Epoller/Errors the error type of epoller/utils.go. Epoller/Submit has SubmitIoReq
-- and the events that waitIoReady (base.go) and the sockets (sock1.go) submit by it;
-- Epoller/Submit/Waits follows such an event to the answer of the poller. Replies, closed
-- channels, timers and system calls are recorded in a trace. The answers of the system are a
-- parameter, the record Unix. Replies that a goroutine of their own sends are in the trace at
-- once, though the code drops one that nobody receives for a while.
--
-- Buffers: buffer.go and the constructors of base.go. BufferSN and BuffrW stand in Buffers,
-- BufferW in Buffers/Writer, BufferR in Buffers/Reader. The loop of Read runs on fuel, the
-- length of the frame: every call of writeTo that does not end it copies at least one byte.
--
-- Wire: the header of transport1.go, written by writeHeader1 and parsed by parseHeader, and
-- verifyChecksum1 of base.go. The checksum function of the package crc16 is a parameter.
--
-- EventMap: dtype/dtype.go, dtype/dtype1.go and NewHdpEvent of dtype/base.go, the maps from
-- strings to any values that the goroutines send each other. EventMap has the values,
-- EventMap/Key the keys, EventMap/Build the methods that fill a map, EventMap/Reads the typed
-- accessors, EventMap/Flags With1, With2 and Copy, EventMap/Channels the replies and SendEvent,
-- EventMap/Codec Encode, and EventMap/Codec/Decode Decode with convertValue. A float is a whole
-- number or a whole part with bits of a fraction, and EventMap/Numbers rounds an integer to 53
-- bits as Go does; what a value refers to is its address. The packages structpb, base64 and utf8
-- are the record Library. A map is visited in the order of its list, which may be any.
--
-- Sockets: sock.go, sock2.go and the rest of sock1.go. Sockets has the addresses, with the
-- methods of Go's net.IP that the code calls, Sockets/Options the creation of a socket and its
-- options, Sockets/Io readFrom, writeTo and their waiting forms, Sockets/Connect connect and the
-- functions it calls, Sockets/Bind bind and bindToAddr. What the system calls return is an
-- argument of each function. The loops of readFrom and writeTo run on fuel, which bounds the
-- calls that end with EINTR: as many as there are, and one more, are enough. The loop of connect
-- runs over what its selects receive.
--
-- Transport: read3 of transport1.go, with BufferR.ReadFrom and read1 (buffer.go) and socket.read
-- (sock1.go): what the user's frame and the buffer get of a datagram. unix.Read and
-- unix.Recvfrom are a parameter, the record Kernel. The loops run on fuel; one round is enough
-- when a datagram is there.
--
-- Transport/Connection: conn.go, the requests that Close, ReadHdr, Read, Write and the deadlines
-- send, and what they return of the result. Transport/Writer: hdpWrite2 of transport1.go and
-- socket.write of sock1.go; the record Writer is its state, with the ring buffer and the frame
-- buffers of the modules above, the frames behind pointers, and the events it sent.
-- Transport/Writer/Handlers has one function per method, handle and run; frame_acknowledged and
-- frame_timed_out are the two ends of the goroutine that writeFrame starts for a frame.
-- Transport/Writer/Queue has the channel from which the writer receives, as steps.
-- Transport/Reader: hdpRead2, in the same way, Transport/Acknowledgement an acknowledgement on
-- its way from one side to the other, and Transport/Journey a frame with its acknowledgement.
-- Transport/Errors is the error type of utils.go. unix.Write and the answers of the poller are
-- the record Kernel of Transport/Writer. The fuel of write bounds the calls that end with EINTR:
-- as many as there are, and one more, are enough.
--
-- Handshake: transport.go and getRefNum of base.go. The record Endpoint is what the reader and
-- the writer of one side keep; on_accept to on_open_acknow are the handlers of hdpRead1,
-- acknow_connect to write1 the headers of hdpWrite1, and message one request to a writer with
-- the request to the other side's reader that Dial (dialer.go) or onAccept (listener.go) sends
-- next. Handshake/Messages has what each side makes of each header, Handshake/Agreement the
-- whole exchange, and Handshake/Headers the loops of readHeader and writeHeader, over the system
-- calls of Transport; as many rounds as there are bytes are enough, since each reads or writes
-- at least one or ends with an error. Handshake/Open has Dial, Accept and onAccept as the
-- requests that they send, up to the first answer with an error; what the goroutines answer is a
-- parameter, and the loop of Accept runs over what it receives. Handshake/Address has what
-- acknowConnect and acknowAccept do around their headers, and the address that one writes and
-- onConnectAcknow reads. Handshake/Open/Run is the loop of run of both sides' goroutines (that
-- of hdpWrite1 differs from that of hdpRead1 only in what it hands over to), and Handshake/Start
-- has NewHdpListener, start and newAcceptConn over the sockets.
--
-- Dtype: dtype/const.go, the enumerations with their names, and dtype/error.go, the error type.
--
-- Not modelled: what a system call does beside returning; that the writer blocks when it signals
-- a frame's channel, of capacity 1, that is full, as repeated acknowledgements of a number make
-- it; sendReadReq and sendWriteReq of sock1.go, whose goroutines send nothing; Run and recycle of
-- conn.go, whose state functions nothing sets; dtype.go, of which only the type of those functions
-- is used; log lines; and the programs in testing.
pub mod Common
pub mod RingBuffer
pub mod Epoller
pub mod Buffers
pub mod Wire
pub mod EventMap
pub mod Sockets
pub mod Handshake
pub mod Transport
pub mod Dtype
