-- ===== src/Lib.antt =====
-- The motor stand: a server samples a load cell through an ADC and broadcasts the samples in packets;
-- clients log or show them, an actor sends commands to the server, and a matrix library computes
-- calibrations. Paths are from the root of the repository.
--
-- Prelude and its children hold what all modules share: tests, lists as arrays, signed integers, loops,
-- bit operations, texts. Double is the interface of floating-point numbers: the type and its operations are
-- parameters of everything that computes with them, so that a theorem without a hypothesis about them holds
-- of IEEE arithmetic; Integers is an instance, on which the tests run. Double.Exact has the laws of exact
-- arithmetic, Double.Order an order and Double.Plots the laws that a drawing relies on: each is a hypothesis
-- of the theorems that need it. Parity and Quartet are exact instances, the fields of two and four elements.
-- Double.Sums and Double.Products have the sums that the theorems about matrices speak of.
--
-- Ads1115 is src/ads1115.c: the calls of the pigpio library are a parameter, and the driver keeps the
-- accesses to the bus in order. Its wait loop takes fuel for its polls. Hx711 is src/hx711.c, the driver of
-- the former converter, on the same library: its wait loop takes fuel for its reads of the pin, and fuel for
-- one read more than the converter is busy is enough, as each read takes one. GpioCompat is
-- src/gpio_compat.c and src/load_cell_cli_stub.c.
--
-- LoadCell is src/load_cell.h. Server is the sampling side of src/load_cell_serv.c: a round of the main loop
-- is a function of what the ADC and the clock answer, packets and the file are lists. The conversion of the
-- time stamp to microseconds is a natural number that fits a long. Server.Arguments is its command line.
-- Auxiliary has its threads that handle requests: tare and reset flag are shared with the main loop, each
-- access is a step, and a run is any sequence of steps. A reset counts as requested when its thread sets the
-- flag. Auxiliary.Accepting is the set-up of the socket for them and the loop that accepts connections.
--
-- Logger is src/load_cell_logger.c, Client is src/load_cell_cli.c: a client's callback is a function on its
-- state that may fault. The numbers that strtod reads and %lf prints are parameters. Rewrite is
-- src/output_rewrite.c. Actor is src/load_cell_actor.c: the answers of its socket calls are a parameter;
-- Actor.Commands has its command line, the search for the address of the server and what it prints.
--
-- Matrix, Lu and Inverse are src/numerical_basics.c: matrices live in a memory under pointers, so that
-- arguments may be the same matrix; an assertion that fails is the result none; positions wrap at 32 bits.
-- What malloc returns holds arbitrary values, and free does nothing. Matrix has a file for each kind of
-- operation. The children of Lu follow the decomposition: Pivots and Columns the exchange of rows,
-- Elimination and Reduction the reduction below the pivot, Rounds what it does to the equations, Substitution
-- and Backward the two loops of the solution, Equations all together, Others what stays as it was. Inverse
-- has Closed for the closed forms, Columns and Identity for the inverse by decomposition.
-- LeastSquares is src/method_of_least_squares.c on top of them, with Normal and FirstOrder for a line, and
-- Prepared, Moments, Equations and Generic for a degree of three or more. Calibration is
-- src/load_cell_calibration.c and the calibration of src/load_cell_serv.c.
--
-- Graph is src/teststandui.c. Calls of GTK and cairo that change the window or draw are kept in a list, and
-- what they answer is a parameter; the lists of GLib are a parameter with the laws its documentation states.
-- Graph.Drawing has what is drawn, Graph.Hover the text under the mouse, and Graph.Window the events of the
-- window, as a relation between states with its invariants. ScaleMenu is pi/ScaleWithMenu.ino: what the
-- serial line has at each poll is a list; ScaleMenu.Lines has what a user types and what it should cause.
--
-- The build is the one of src/load_cell.h, with FAST_AS_POSSIBLE set. Only on_tick_timer of src/teststandui.c
-- is taken from the build without it: with it, the merge has left none. System calls enter by what they
-- answer; the results of write that the code ignores are taken to be of writes that succeed in full. Loops
-- are recursion on the rounds left; the loop over the weights is recursion on the room left in their array,
-- behind which the source writes outside it. Not modelled are: the construction of the widgets in
-- src/teststandui.c (activate, create_data_table), its ui_timer_cb, which is never installed, and those lines
-- of idle_handle_output that a merge has broken; matshw of src/numerical_basics.c and the banners that the
-- programs print; the signal handler of src/load_cell_logger.c; src/pi_test.c, a hardware test; and the
-- macros of src/numerical_basics.h that no function uses.
pub mod Prelude
pub mod Double
pub mod Integers
pub mod Parity
pub mod Quartet
pub mod Ads1115
pub mod LoadCell
pub mod Server
pub mod Logger
pub mod Client
pub mod Matrix
pub mod Lu
pub mod Inverse
pub mod Graph
pub mod Hx711
pub mod GpioCompat
pub mod ScaleMenu
pub mod LeastSquares
pub mod Auxiliary
pub mod Calibration
pub mod Rewrite
pub mod Actor
